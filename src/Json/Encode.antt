-- ===== src/Json/Encode.antt =====
-- The bytes that `append_decoded_codepoint` writes for a code point.
use Prim.Native.Nat.{bit_and, bit_or}
use tnt.Base.{ℕ, ◌+◌, ◌/◌, ◌%◌, ◌<◌, ◌++◌, some, ◌≡◌, ◌↔◌, arith, length, Bytes}
use tnt.Base.Bits.{bit_or_sum, bit_and_six}
use tnt.Utf8.Spec.{IsScalar, encoding, encoded_length}
use tnt.Json.{codepoint_bytes, append_decoded_codepoint, append_or_fail}

tail_byte : (x : ℕ) → bit_or 0x80 (bit_and x 0x3F) ≡ 0x80 + x % 64
tail_byte x = rw (bit_and_six x) (bit_or_sum 6 2 (x % 64) (omega arith))

-- On code points up to U+10FFFF, the shifts and masks make the encoding of RFC 3629.
pub codepoint_bytes-encoding : (cp : ℕ) → cp < 0x110000 → codepoint_bytes cp ≡ encoding cp
unfolding codepoint_bytes
codepoint_bytes-encoding cp h = ground (
  arith,
  tail_byte cp,
  tail_byte (cp / 64),
  tail_byte (cp / 4096),
  bit_or_sum 5 6 (cp / 64),
  bit_or_sum 4 14 (cp / 4096),
  bit_or_sum 3 30 (cp / 262144),
)

-- A code point is appended, with `out'` as the result, exactly when it is a scalar value, its bytes
-- fit with a NUL behind them, and `out'` is the old text with its RFC 3629 encoding behind it.
pub append_decoded_codepoint_iff :
    (size : ℕ) (out out' : Bytes) (cp : ℕ)
    → (append_decoded_codepoint size out cp ≡ some out')
      ↔ (IsScalar cp × (length out + encoded_length cp < size) × (out' ≡ out ++ encoding cp))
unfolding append_decoded_codepoint append_or_fail
append_decoded_codepoint_iff size out out' cp = (
  λ e. (
    ground arith,
    ground (arith, codepoint_bytes-encoding cp),
    ground (arith, codepoint_bytes-encoding cp),
  ),
  λ h. ground (arith, codepoint_bytes-encoding cp),
)
