-- ===== src/Input/NormalMode.antt =====
-- src/input.c: the keys of the NORMAL mode in `handle_key`.
use tnt.Base.{ℕ, true, not, ◌&&◌, ◌||◌, [], ◌∷◌, leb, ◌==◌, if◌then◌else◌, codes}
use tnt.Base.Int.{pos, negsuc, ltb_ℤ, ◌-ℤ◌}
use tnt.HistoryView
use tnt.Input.Channel.{byte, timeout, Channel}
use tnt.Input.Pager.{half_page}
use tnt.Input.Session.{
  Session, World, Outcome, command, consume, ignore, normal_scroll_to_latest, normal_scroll_by,
  normal_enter_insert,
}

abbrev pub to_oldest : Session → Session
to_oldest s = record s { view = HistoryView.scroll_to_oldest s.view }

-- Behind `ESC [ digit`
unfoldable pub normal_digit : World → ℕ → Session → Channel → Session
normal_digit w digit s [] = s
normal_digit w digit s (timeout ∷ c) = s
normal_digit w digit s (byte b ∷ c) =
    let page = HistoryView.height s.height in
    if not (b == b'~')
    then s
    else if digit == b'5'
    then normal_scroll_by w s (pos 0 -ℤ page)
    else if digit == b'6'
    then normal_scroll_by w s page
    else if digit == b'1'
    then to_oldest s
    else if digit == b'4'
    then normal_scroll_to_latest w s
    else s

-- What is left to read behind one read.
abbrev pub past_one : Channel → Channel
past_one [] = []
past_one (r ∷ c) = c

unfoldable pub normal_bracket : World → Session → Channel → Outcome
unfolding normal_digit
normal_bracket w s [] = consume s [] []
normal_bracket w s (timeout ∷ c) = consume s [] c
normal_bracket w s (byte b ∷ c) =
    if b == b'A'
    then consume (normal_scroll_by w s (negsuc 0)) [] c
    else if b == b'B'
    then consume (normal_scroll_by w s (pos 1)) [] c
    else if b == b'H'
    then consume (to_oldest s) [] c
    else if b == b'F'
    then consume (normal_scroll_to_latest w s) [] c
    else if leb b'1' b && leb b b'6'
    then consume (normal_digit w b s c) [] (past_one c)
    else consume s [] c

unfoldable pub normal_escape : World → Session → Channel → Outcome
unfolding normal_bracket
normal_escape w s [] = consume s [] []
normal_escape w s (timeout ∷ c) = consume s [] c
normal_escape w s (byte b ∷ c) = if b == b'[' then normal_bracket w s c else consume s [] c

unfoldable pub normal_key : World → ℕ → Session → Channel → Outcome
normal_key w key s c =
    let page = HistoryView.height s.height in
    if key == b'i' || key == b'a' || key == b'A' || key == b'o' || key == b'O'
    then consume (normal_enter_insert s) [] c
    else if key == b':'
    then consume (record s { mode = command; command_input = [] }) [] c
    else if key == b'/'
    then consume (record s { mode = command; command_input = codes "search " }) [] c
    else if key == b'j'
    then consume (normal_scroll_by w s (pos 1)) [] c
    else if key == b'k' && ltb_ℤ (pos 0) s.view.scroll_pos
    then consume (normal_scroll_by w s (negsuc 0)) [] c
    else if key == 4
    then consume (normal_scroll_by w s (half_page page)) [] c
    else if key == 21
    then consume (normal_scroll_by w s (pos 0 -ℤ half_page page)) [] c
    else if key == 6
    then consume (normal_scroll_by w s page) [] c
    else if key == 2
    then consume (normal_scroll_by w s (pos 0 -ℤ page)) [] c
    else if key == b'g'
    then consume (to_oldest s) [] c
    else if key == b'G'
    then consume (record (normal_scroll_to_latest w s) { unread_mentions = 0 }) [] c
    else if key == 27
    then normal_escape w s c
    else if key == b'?'
    then consume (record s { show_help = true; help_scroll_pos = pos 0 }) [] c
    else ignore s c
