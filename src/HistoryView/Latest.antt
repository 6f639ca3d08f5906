-- ===== src/HistoryView/Latest.antt =====
-- The first message that `history_view_latest_start_for_height` puts on the screen.
use mathlib.Core.Path.{subst}
use tnt.Base.{
  [], sym, length-eq-zero, ℕ, zero, suc, ◌+◌, ◌-◌, ◌≤◌, ◌<◌, Bool-cases, ◌&&◌, List, ltb, ◌==◌,
  length, Bytes, ◌≡◌, ◌⊎◌, inl, inr, refl, arith,
}
use tnt.Base.Int.{ℤ, pos, ◌≤ℤ◌, ltb_ℤ, pos_part, neg_part}
use tnt.Room.{Message}
use tnt.HistoryView.{rendered_rows_for_slice, latest_from, latest_start_for_height}

zero_or_less : (a b : ℕ) → a ≤ b → (b ≡ 0) ⊎ ((1 ≤ b) × ((a ≡ b) ⊎ (a < b)))
zero_or_less a b h = ground arith

module _ (date_key : Message → Bytes) (messages : List Message) (view_height : ℤ) where
  -- The rows that the messages from `start` on take, with a row for each new day.
  abbrev pub rows : ℕ → ℕ
  rows start = rendered_rows_for_slice date_key messages start (length messages)

  abbrev pub Fits : ℕ → Type 0
  Fits start = pos (rows start) ≤ℤ view_height

  abbrev pub Exceeds : ℕ → Type 0
  Exceeds start = pos_part view_height < rows start + neg_part view_height

  latest_from_lem :
      (candidate : ℕ)
      → let start =
          latest_from date_key candidate messages (length messages) view_height candidate in
        (start ≤ candidate)
        × ((start ≡ candidate) ⊎ Fits start)
        × ((start ≡ 0) ⊎ Exceeds (start - 1))
  unfolding latest_from
  latest_from_lem zero = (omega arith, inl refl, inl refl)
  latest_from_lem (suc candidate) =
      let ih = latest_from_lem candidate in
      elim (Bool-cases (ltb_ℤ view_height (pos (rows candidate)))) [
        | inl over ↦
            let exceeds : Exceeds candidate = ground arith in
            let last : candidate ≡ suc candidate - 1 = omega arith in
            rw over (omega arith, inl refl, inr (subst Exceeds last exceeds))
        | inr fits ↦
            let here : Fits candidate = ground arith in
            rw fits (
              omega (arith, ih.0),
              elim ih.1 [ inl same ↦ inr (subst Fits (sym same) here) | inr shown ↦ inr shown ],
              ih.2,
            )
      ]

  -- The messages from the start on fit the height, with a row for each new day, or the start is the
  -- last message; and one message more would not fit, or the start is the oldest.
  pub latest_start_lem :
      let start = latest_start_for_height date_key messages view_height in
      ((messages ≡ []) × (start ≡ 0))
      ⊎ ((start < length messages)
          × (Fits start × ((start ≡ 0) ⊎ Exceeds (start - 1))
              ⊎ (start + 1 ≡ length messages) × Exceeds start))
  unfolding latest_start_for_height
  latest_start_lem =
      let count = length messages in
      let found = latest_from date_key count messages count view_height count in
      let (within, fits, more) = latest_from_lem count in
      elim (Bool-cases (found == count && ltb 0 count)) [
        | inl none_fit ↦
            let exceeds : Exceeds (count - 1) = elim more [
              | inl at_zero ↦ absurd (ground arith)
              | inr over ↦
                  let same : found - 1 ≡ count - 1 = ground arith in subst Exceeds same over
            ] in
            rw none_fit (inr (ground arith, inr (ground arith, exceeds)))
        | inr some_fit ↦ elim (zero_or_less found count within) [
          | inl empty ↦ rw some_fit (inl (length-eq-zero messages empty, omega arith))
          | inr less ↦
              let below : found < count = ground arith in
              let shown : Fits found = elim fits [ inl same ↦ absurd (omega arith) | inr f ↦ f ] in
              rw some_fit (inr (below, inl (shown, more)))
        ]
      ]
