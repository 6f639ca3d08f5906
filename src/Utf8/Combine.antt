-- ===== src/Utf8/Combine.antt =====
-- The shifts and ors of `combine`, as arithmetic.
use Prim.Native.Nat.{bit_or}
use tnt.Base.{ℕ, ◌+◌, ◌*◌, ◌%◌, ◌^◌, ◌<◌, ◌≡◌, ap, ◌∙◌, ◌∷◌, arith, Bytes}
use tnt.Base.Bits.{bit_or_sum}
use tnt.Utf8.{combine}
use tnt.Utf8.Lead.{masks}

-- Up to three six-bit fields below a leading one.
or_two : (a b : ℕ) → b < 64 → bit_or (a * 2 ^ 6) b ≡ a * 64 + b
or_two a b h = bit_or_sum 6 a b h

or_three :
    (a b c : ℕ)
    → b < 64
    → c < 64
    → bit_or (bit_or (a * 2 ^ 12) (b * 2 ^ 6)) c ≡ (a * 64 + b) * 64 + c
or_three a b c hb hc =
    rw (bit_or_sum 12 a (b * 2 ^ 6) (omega arith))
      (ap (λ t. bit_or t c) (regroup) ∙ or_two (a * 64 + b) c hc)
  where
    regroup : a * 2 ^ 12 + b * 2 ^ 6 ≡ (a * 64 + b) * 2 ^ 6
    regroup = omega arith

or_four :
    (a b c d : ℕ)
    → b < 64
    → c < 64
    → d < 64
    → bit_or (bit_or (bit_or (a * 2 ^ 18) (b * 2 ^ 12)) (c * 2 ^ 6)) d
      ≡ ((a * 64 + b) * 64 + c) * 64 + d
or_four a b c d hb hc hd =
    rw (bit_or_sum 18 a (b * 2 ^ 12) (omega arith))
      (ap (λ t. bit_or (bit_or t (c * 2 ^ 6)) d) regroup ∙ or_three (a * 64 + b) c d hc hd)
  where
    regroup : a * 2 ^ 18 + b * 2 ^ 12 ≡ (a * 64 + b) * 2 ^ 12
    regroup = omega arith

-- The code point that the first bytes hold, by the number of bytes.
module _ (a b c d : ℕ) (rest : Bytes) (ha : a < 256) (hb : b < 256) (hc : c < 256)
    (hd : d < 256) where
  pub combine_two : combine 2 (a ∷ b ∷ rest) ≡ a % 32 * 64 + b % 64
  unfolding combine
  combine_two = rw ((masks a ha).1, (masks b hb).0) (or_two (a % 32) (b % 64) (omega arith))

  pub combine_three : combine 3 (a ∷ b ∷ c ∷ rest) ≡ (a % 16 * 64 + b % 64) * 64 + c % 64
  unfolding combine
  combine_three =
      rw ((masks a ha).2, (masks b hb).0, (masks c hc).0)
        (or_three (a % 16) (b % 64) (c % 64) (omega arith) (omega arith))

  pub combine_four :
      combine 4 (a ∷ b ∷ c ∷ d ∷ rest) ≡ ((a % 8 * 64 + b % 64) * 64 + c % 64) * 64 + d % 64
  unfolding combine
  combine_four =
      rw ((masks a ha).3, (masks b hb).0, (masks c hc).0, (masks d hd).0)
        (or_four (a % 8) (b % 64) (c % 64) (d % 64) (omega arith) (omega arith) (omega arith))
