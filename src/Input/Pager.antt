-- ===== src/Input/Pager.antt =====
-- src/input.c: `pager_apply_key`, the keys that scroll the help and the output of a command.
use tnt.Base.{ℕ, ◌/◌, Bool, not, ◌&&◌, ◌||◌, [], ◌∷◌, leb, ◌==◌, if◌then◌else◌}
use tnt.Base.Int.{ℤ, pos, negsuc, pos_part, ltb_ℤ, ◌+ℤ◌, ◌-ℤ◌}
use tnt.Input.Channel.{byte, timeout, Channel}

-- `pager_action_t`
pub data PagerAction : Type 0 where
  stay : PagerAction
  scroll : PagerAction
  close : PagerAction
  refresh : PagerAction

abbrev pub Paged : Type 0
Paged = PagerAction × ℤ × Channel

pub pager_page_height : ℤ → ℤ
pager_page_height height = let page = height -ℤ pos 2 in if ltb_ℤ page (pos 1) then pos 1 else page

unfoldable pub pager_scroll_by : ℤ → ℤ → ℤ
pager_scroll_by scroll_pos delta =
    let moved = scroll_pos +ℤ delta in if ltb_ℤ moved (pos 0) then pos 0 else moved

-- `page / 2` of a page that is at least 1, and at least 1 itself.
pub half_page : ℤ → ℤ
half_page page = let half = pos_part page / 2 in if leb half 0 then pos 1 else pos half

-- Behind `ESC [ digit`
pub pager_digit : ℤ → ℤ → ℕ → Channel → Paged
pager_digit page scroll_pos digit [] = (stay, scroll_pos, [])
pager_digit page scroll_pos digit (timeout ∷ c) = (stay, scroll_pos, c)
pager_digit page scroll_pos digit (byte b ∷ c) =
    if not (b == b'~')
    then (stay, scroll_pos, c)
    else if digit == b'5'
    then (scroll, pager_scroll_by scroll_pos (pos 0 -ℤ page), c)
    else if digit == b'6'
    then (scroll, pager_scroll_by scroll_pos page, c)
    else if digit == b'1'
    then (scroll, pos 0, c)
    else if digit == b'4'
    then (scroll, pos 999, c)
    else (stay, scroll_pos, c)

-- Behind `ESC [`
pub pager_bracket : ℤ → ℤ → Channel → Paged
unfolding pager_digit
pager_bracket page scroll_pos [] = (stay, scroll_pos, [])
pager_bracket page scroll_pos (timeout ∷ c) = (stay, scroll_pos, c)
pager_bracket page scroll_pos (byte b ∷ c) =
    if b == b'A'
    then (scroll, pager_scroll_by scroll_pos (negsuc 0), c)
    else if b == b'B'
    then (scroll, pager_scroll_by scroll_pos (pos 1), c)
    else if b == b'H'
    then (scroll, pos 0, c)
    else if b == b'F'
    then (scroll, pos 999, c)
    else if leb b'1' b && leb b b'6'
    then pager_digit page scroll_pos b c
    else (stay, scroll_pos, c)

-- Behind ESC
pub pager_escape : ℤ → ℤ → Channel → Paged
unfolding pager_bracket
pager_escape page scroll_pos [] = (close, scroll_pos, [])
pager_escape page scroll_pos (timeout ∷ c) = (close, scroll_pos, c)
pager_escape page scroll_pos (byte b ∷ c) =
    if b == b'[' then pager_bracket page scroll_pos c else (stay, scroll_pos, c)

unfoldable pub pager_apply_key : ℤ → ℕ → ℤ → Bool → Channel → Paged
pager_apply_key height key scroll_pos allow_refresh c =
    let page = pager_page_height height in
    let half = half_page page in
    if key == b'q'
    then (close, scroll_pos, c)
    else if key == b'j'
    then (scroll, pager_scroll_by scroll_pos (pos 1), c)
    else if key == b'k'
    then (scroll, pager_scroll_by scroll_pos (negsuc 0), c)
    else if key == 4
    then (scroll, pager_scroll_by scroll_pos half, c)
    else if key == 21
    then (scroll, pager_scroll_by scroll_pos (pos 0 -ℤ half), c)
    else if key == 6 || key == b' '
    then (scroll, pager_scroll_by scroll_pos page, c)
    else if key == 2 || key == b'b'
    then (scroll, pager_scroll_by scroll_pos (pos 0 -ℤ page), c)
    else if key == b'g'
    then (scroll, pos 0, c)
    else if key == b'G'
    then (scroll, pos 999, c)
    else if (key == b'r' || key == b'R') && allow_refresh
    then (refresh, scroll_pos, c)
    else if key == 27
    then pager_escape page scroll_pos c
    else (stay, scroll_pos, c)
