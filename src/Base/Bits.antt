-- ===== src/Base/Bits.antt =====
-- `|` of disjoint fields as a sum, and laws of bytes by their table.
use Prim.Native.Nat.{min, max, bit_and, bit_or, digits, bit_and-bitwise, bit_or-bitwise}
use native.Mathlib.Nat.{pow-suc}
use tnt.Base.{
  ℕ, zero, suc, ◌+◌, ◌*◌, ◌/◌, ◌%◌, ◌^◌, ◌≤◌, ◌<◌, ◌≡◌, refl, ap, Bool, true, ◌&&◌, ◌⊎◌, inl, inr,
  arith,
}

-- The test holds of all numbers from 0 to `top`.
unfoldable pub up_to : (ℕ → Bool) → ℕ → Bool
up_to test zero = test 0
up_to test (suc top) = up_to test top && test (suc top)

last_or_before : (x top : ℕ) → x ≤ suc top → (x ≡ suc top) ⊎ (x ≤ top)
last_or_before x top h = omega arith

-- A law of bytes that its table of 256 entries confirms.
pub up_to-lt : (test : ℕ → Bool) (top x : ℕ) → x < suc top → up_to test top ≡ true → test x ≡ true
unfolding up_to
up_to-lt test zero zero h t = t
up_to-lt test zero (suc x) h t = absurd (omega arith)
up_to-lt test (suc top) x h t = elim (last_or_before x top (omega arith)) [
  | inl last ↦ rw last (ground arith)
  | inr before ↦ up_to-lt test top x (omega arith) (ground arith)
]

-- The native operations run over the binary digits of their first argument. Any fuel from that
-- number on will do, so there is an equation for the lowest digit and the digits above it.
module _ (above : ℕ → ℕ) (join : ℕ → ℕ → ℕ) where
  digits_bound :
      (bound fuel x y : ℕ)
      → x ≤ fuel
      → fuel ≤ bound
      → digits above join fuel x y ≡ digits above join x x y
  digits_bound bound zero zero y h k = refl
  digits_bound bound zero (suc x) y h k = absurd (omega arith)
  digits_bound zero (suc fuel) x y h k = absurd (omega arith)
  digits_bound (suc bound) (suc fuel) zero y h k = refl
  digits_bound (suc bound) (suc fuel) (suc x) y h k = omega (
    arith,
    digits_bound bound fuel (suc x / 2) (y / 2) (omega arith) (omega arith),
    digits_bound bound x (suc x / 2) (y / 2) (omega arith) (omega arith),
  )

or_lowest : (x y : ℕ) → bit_or x y ≡ 2 * bit_or (x / 2) (y / 2) + max (x % 2) (y % 2)
or_lowest zero y = omega (arith, bit_or-bitwise 0 y, bit_or-bitwise 0 (y / 2))
or_lowest (suc x) y = omega (
  arith,
  bit_or-bitwise (suc x) y,
  bit_or-bitwise (suc x / 2) (y / 2),
  digits_bound (λ y. y) max x x (suc x / 2) (y / 2) (omega arith) (omega arith),
)

and_lowest : (x y : ℕ) → bit_and x y ≡ 2 * bit_and (x / 2) (y / 2) + min (x % 2) (y % 2)
and_lowest zero y = omega (arith, bit_and-bitwise 0 y, bit_and-bitwise 0 (y / 2))
and_lowest (suc x) y = omega (
  arith,
  bit_and-bitwise (suc x) y,
  bit_and-bitwise (suc x / 2) (y / 2),
  digits_bound (λ y. 0) min x x (suc x / 2) (y / 2) (omega arith) (omega arith),
)

or_zero : (bound x : ℕ) → x ≤ bound → bit_or x 0 ≡ x
or_zero bound zero h = refl
or_zero zero (suc x) h = absurd (omega arith)
or_zero (suc bound) (suc x) h =
    omega (arith, or_lowest (suc x) 0, or_zero bound (suc x / 2) (omega arith))

-- A field above `k` low bits and a value that fits into them: `(high << k) | low`.
pub bit_or_sum : (k high low : ℕ) → low < 2 ^ k → bit_or (high * 2 ^ k) low ≡ high * 2 ^ k + low
bit_or_sum zero high low h = ground (arith, or_zero high high)
bit_or_sum (suc k) high low h =
    let shifted : high * 2 ^ suc k ≡ 2 * (high * 2 ^ k) =
      omega (arith, ap (λ (t : ℕ). high * t) (pow-suc 2 k)) in
    ground (
      arith,
      shifted,
      pow-suc 2 k,
      or_lowest (high * 2 ^ suc k) low,
      bit_or_sum k high (low / 2) (omega (arith, pow-suc 2 k)),
    )

and_zero : (bound x : ℕ) → x ≤ bound → bit_and x 0 ≡ 0
and_zero bound zero h = refl
and_zero zero (suc x) h = absurd (omega arith)
and_zero (suc bound) (suc x) h =
    omega (arith, and_lowest (suc x) 0, and_zero bound (suc x / 2) (omega arith))

-- `x & 0x3F`, for every `x`
pub bit_and_six : (x : ℕ) → bit_and x 0x3F ≡ x % 64
bit_and_six x = omega (
  arith,
  and_lowest x 63,
  and_lowest (x / 2) 31,
  and_lowest (x / 2 / 2) 15,
  and_lowest (x / 2 / 2 / 2) 7,
  and_lowest (x / 2 / 2 / 2 / 2) 3,
  and_lowest (x / 2 / 2 / 2 / 2 / 2) 1,
  and_zero (x / 2 / 2 / 2 / 2 / 2 / 2) (x / 2 / 2 / 2 / 2 / 2 / 2) (omega arith),
)
