-- ===== src/HistoryView/Tests.antt =====
-- The theorems on the view at a concrete history.
use tnt.Base.{true, [], ◌∷◌, Bytes, equal, codes, ◌≡◌, refl}
use tnt.Base.Int.{pos}
use tnt.Room.{Message}
use tnt.HistoryView.{View, latest_start_for_height, rendered_rows_for_slice, rows_from, latest_from}

abbrev at_tail : View
at_tail = record { scroll_pos = pos 3; follow_tail = true }

abbrev hello : Message
hello = record { timestamp = pos 0; username = codes "ann"; content = codes "hi" }

abbrev day : Message → Bytes
day m = codes "1970-01-01"

-- Two of the three messages, with the row of their day, take three rows.
three_rows : latest_start_for_height day (hello ∷ hello ∷ hello ∷ []) (pos 3) ≡ 1
unfolding latest_start_for_height latest_from rendered_rows_for_slice rows_from equal
three_rows = refl
