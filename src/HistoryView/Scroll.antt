-- ===== src/HistoryView/Scroll.antt =====
-- The bounds of the scroll position, and when the view follows the newest message.
use tnt.Base.{true, not, ◌&&◌, if◌then◌else◌, ◌≡◌, ◌↔◌, arith}
use tnt.Base.Int.{ℤ, pos, ◌≤ℤ◌, ◌+ℤ◌, ltb_ℤ}
use tnt.HistoryView.{View, max_scroll, clamp, scroll_by}

max_scroll_nonnegative : (count view_height : ℤ) → pos 0 ≤ℤ max_scroll count view_height
unfolding max_scroll
max_scroll_nonnegative count view_height = ground arith

clamp_bounds :
    (top x : ℤ)
    → pos 0 ≤ℤ top
    → (pos 0 ≤ℤ clamp top x) × (clamp top x ≤ℤ top) × (pos 0 ≤ℤ x → x ≤ℤ top → clamp top x ≡ x)
unfolding clamp
clamp_bounds top x h = (ground arith, ground arith, λ low high. ground arith)

at_top : (top x : ℤ) → x ≤ℤ top → (not (ltb_ℤ x top) ≡ true) ↔ (x ≡ top)
at_top top x h = ground arith

-- Whatever the position was and however far it scrolls, the new position is between the oldest and
-- the latest one, the view follows the newest message exactly at the latest, and a step that stays
-- between the bounds is taken whole.
pub scroll_by_bounds :
    (view : View) (count view_height delta : ℤ)
    → let top = max_scroll count view_height in
      let from = if view.follow_tail && ltb_ℤ delta (pos 0) then top else view.scroll_pos in
      let view' = scroll_by view count view_height delta in
      (pos 0 ≤ℤ view'.scroll_pos)
      × (view'.scroll_pos ≤ℤ top)
      × ((view'.follow_tail ≡ true) ↔ (view'.scroll_pos ≡ top))
      × (pos 0 ≤ℤ from +ℤ delta → from +ℤ delta ≤ℤ top → view'.scroll_pos ≡ from +ℤ delta)
unfolding scroll_by
scroll_by_bounds view count view_height delta =
    let top = max_scroll count view_height in
    let from = if view.follow_tail && ltb_ℤ delta (pos 0) then top else view.scroll_pos in
    let (low, high, kept) =
      clamp_bounds top (from +ℤ delta) (max_scroll_nonnegative count view_height) in
    (low, high, at_top top (clamp top (from +ℤ delta)) high, kept)
