-- ===== src/Utf8/Lead.antt =====
-- What the bit tests and masks of src/utf8.c say of a byte, as arithmetic. Each law is checked at
-- all 256 bytes.
use Prim.Native.Nat.{bit_and}
use tnt.Base.{
  ℕ, ◌%◌, ◌<◌, Bool, true, ◌&&◌, ◌≡◌, refl, ltb, leb, ◌==◌, if◌then◌else◌, ==_iff, arith,
}
use tnt.Base.Bits.{up_to, up_to-lt}
use tnt.Utf8.{byte_length, is_continuation}

abbrev pub plain_length : ℕ → ℕ
plain_length b =
    if ltb b 0xC0
    then 1
    else if ltb b 0xE0
    then 2
    else if ltb b 0xF0
    then 3
    else if ltb b 0xF8
    then 4
    else 1

abbrev pub plain_continuation : ℕ → Bool
plain_continuation b = leb 0x80 b && ltb b 0xC0

abbrev flag : Bool → ℕ
flag b = if b then 1 else 0

length_table : up_to (λ b. byte_length b == plain_length b) 255 ≡ true
unfolding up_to byte_length
length_table = refl

pub byte_length_lem : (b : ℕ) → b < 256 → byte_length b ≡ plain_length b
byte_length_lem b h = (==_iff _ _).0 (up_to-lt _ 255 b h length_table)

continuation_table : up_to (λ b. flag (is_continuation b) == flag (plain_continuation b)) 255 ≡ true
unfolding up_to is_continuation
continuation_table = refl

flag_injective : (a b : Bool) → flag a ≡ flag b → a ≡ b
flag_injective a b h = ground arith

pub is_continuation_lem : (b : ℕ) → b < 256 → is_continuation b ≡ plain_continuation b
is_continuation_lem b h =
    flag_injective _ _ ((==_iff _ _).0 (up_to-lt _ 255 b h continuation_table))

-- The masks of `utf8_decode`.
mask_table :
    (up_to (λ b. bit_and b 0x3F == b % 64) 255 ≡ true)
    × (up_to (λ b. bit_and b 0x1F == b % 32) 255 ≡ true)
    × (up_to (λ b. bit_and b 0x0F == b % 16) 255 ≡ true)
    × (up_to (λ b. bit_and b 0x07 == b % 8) 255 ≡ true)
unfolding up_to
mask_table = (refl, refl, refl, refl)

pub masks :
    (b : ℕ)
    → b < 256
    → (bit_and b 0x3F ≡ b % 64)
      × (bit_and b 0x1F ≡ b % 32)
      × (bit_and b 0x0F ≡ b % 16)
      × (bit_and b 0x07 ≡ b % 8)
masks b h = (
  (==_iff _ _).0 (up_to-lt _ 255 b h mask_table.0),
  (==_iff _ _).0 (up_to-lt _ 255 b h mask_table.1),
  (==_iff _ _).0 (up_to-lt _ 255 b h mask_table.2),
  (==_iff _ _).0 (up_to-lt _ 255 b h mask_table.3),
)
