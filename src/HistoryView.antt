-- ===== src/HistoryView.antt =====
-- src/history_view.c: which messages of the history are on the screen. `message_date_key` calls
-- `localtime_r` and `strftime`; the day of a message is a parameter, a string of the ten bytes of
-- `%Y-%m-%d`. Positions and heights are `int`s, by their values.
pub mod Scroll
pub mod Latest
mod Tests
use tnt.Base.{
  ℕ, zero, suc, ◌+◌, ◌-◌, Bool, true, false, not, ◌&&◌, List, [], ◌∷◌, Option, none, some, ltb,
  ◌==◌, if◌then◌else◌, length, take, drop, Bytes, equal,
}
use tnt.Base.Int.{ℤ, pos, negsuc, ◌+ℤ◌, ◌-ℤ◌, ltb_ℤ}
use tnt.Room.{Message}

pub height : ℤ → ℤ
height terminal_height = let h = terminal_height -ℤ pos 3 in if ltb_ℤ h (pos 1) then pos 1 else h

pub max_scroll : ℤ → ℤ → ℤ
max_scroll message_count view_height =
    let m = message_count -ℤ view_height in if ltb_ℤ m (pos 0) then pos 0 else m

-- `*scroll_pos` and `*follow_tail`
pub record View : Type 0 where
  pub scroll_pos : ℤ
  pub follow_tail : Bool

pub scroll_to_latest : View → ℤ → ℤ → View
scroll_to_latest view message_count view_height = record {
  scroll_pos = max_scroll message_count view_height;
  follow_tail = true;
}

pub scroll_to_oldest : View → View
scroll_to_oldest view = record { scroll_pos = pos 0; follow_tail = false }

-- `if (x < 0) x = 0; else if (x > top) x = top;`
clamp : ℤ → ℤ → ℤ
clamp top x = if ltb_ℤ x (pos 0) then pos 0 else if ltb_ℤ top x then top else x

pub scroll_by : View → ℤ → ℤ → ℤ → View
unfolding clamp
scroll_by view message_count view_height delta =
    let top = max_scroll message_count view_height in
    let from = if view.follow_tail && ltb_ℤ delta (pos 0) then top else view.scroll_pos in
    let to = clamp top (from +ℤ delta) in
    record { scroll_pos = to; follow_tail = not (ltb_ℤ to top) }

module _ (date_key : Message → Bytes) where
  -- The loop over the slice, with the messages that are left of it and `last_date`.
  rows_from : List Message → Bytes → ℕ
  rows_from [] last_date = 0
  rows_from (m ∷ ms) last_date =
      if equal (date_key m) last_date
      then suc (rows_from ms last_date)
      else suc (suc (rows_from ms (date_key m)))

  pub rendered_rows_for_slice : List Message → ℕ → ℕ → ℕ
  unfolding rows_from
  rendered_rows_for_slice messages start end =
      rows_from (take (end - start) (drop start messages)) []

  -- `candidate` counts down from the rounds left; a slice of too many rows breaks the loop.
  latest_from : ℕ → List Message → ℕ → ℤ → ℕ → ℕ
  unfolding rendered_rows_for_slice
  latest_from zero messages count view_height start = start
  latest_from (suc candidate) messages count view_height start =
      if ltb_ℤ view_height (pos (rendered_rows_for_slice messages candidate count))
      then start
      else latest_from candidate messages count view_height candidate

  pub latest_start_for_height : List Message → ℤ → ℕ
  unfolding latest_from
  latest_start_for_height messages view_height =
      let count = length messages in
      let start = latest_from count messages count view_height count in
      if start == count && ltb 0 count then count - 1 else start
