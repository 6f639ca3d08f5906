-- ===== src/Utf8/Sequence.antt =====
-- One byte sequence of src/utf8.c against RFC 3629 (`Utf8.Spec`).
use tnt.Base.{
  ℕ, ◌+◌, ◌*◌, ◌/◌, ◌%◌, ◌≤◌, ◌<◌, ◌≡◌, ◌∙◌, ◌∷◌, ◌++◌, ltb, arith, Bytes, inl, inr, Bool-cases,
}
use tnt.Utf8.{combine, decode}
use tnt.Utf8.Lead.{byte_length_lem, is_continuation_lem}
use tnt.Utf8.Combine.{combine_two, combine_three, combine_four}
use tnt.Utf8.Spec.{IsScalar, encoding, encoded_length}

abbrev IsTail : ℕ → Type 0
IsTail b = (0x80 ≤ b) × (b < 0xC0)

-- What both functions need of a lead byte and the bytes behind it.
decode_one : (a : ℕ) (rest : Bytes) → a < 0x80 → decode (a ∷ rest) ≡ (a, 1)
unfolding decode combine
decode_one a rest ha = ground (arith, byte_length_lem a)

module _ (a b : ℕ) (rest : Bytes) where
  decode_two :
      (0xC0 ≤ a) × (a < 0xE0) → IsTail b → decode (a ∷ b ∷ rest) ≡ (a % 32 * 64 + b % 64, 2)
  unfolding decode
  decode_two ha hb =
      ground (arith, byte_length_lem a, is_continuation_lem b, combine_two a b 0 0 rest)

module _ (a b c : ℕ) (rest : Bytes) where
  decode_three :
      (0xE0 ≤ a) × (a < 0xF0)
      → IsTail b
      → IsTail c
      → decode (a ∷ b ∷ c ∷ rest) ≡ ((a % 16 * 64 + b % 64) * 64 + c % 64, 3)
  unfolding decode
  decode_three ha hb hc = ground (
    arith,
    byte_length_lem a,
    is_continuation_lem b,
    is_continuation_lem c,
    combine_three a b c 0 rest,
  )

module _ (a b c d : ℕ) (rest : Bytes) where
  decode_four :
      (0xF0 ≤ a) × (a < 0xF8)
      → IsTail b
      → IsTail c
      → IsTail d
      → decode (a ∷ b ∷ c ∷ d ∷ rest) ≡ (((a % 8 * 64 + b % 64) * 64 + c % 64) * 64 + d % 64, 4)
  unfolding decode
  decode_four ha hb hc hd = ground (
    arith,
    byte_length_lem a,
    is_continuation_lem b,
    is_continuation_lem c,
    is_continuation_lem d,
    combine_four a b c d rest,
  )

-- The bytes of a code point, whatever follows them, are read back as that code point.
pub decode-encoding :
    (cp : ℕ) (rest : Bytes) → IsScalar cp → decode (encoding cp ++ rest) ≡ (cp, encoded_length cp)
decode-encoding cp rest h = elim (Bool-cases (ltb cp 0x80)) [
  | inl one ↦ rw one (decode_one cp rest (ground arith))
  | inr more ↦ elim (Bool-cases (ltb cp 0x800)) [
    | inl two ↦
        rw (more, two)
          (decode_two (0xC0 + cp / 64) (0x80 + cp % 64) rest (ground arith) (ground arith)
            ∙ ground arith)
    | inr more' ↦ elim (Bool-cases (ltb cp 0x10000)) [
      | inl three ↦
          rw (more, more', three)
            (decode_three (0xE0 + cp / 4096) (0x80 + cp / 64 % 64) (0x80 + cp % 64) rest
                (ground arith) (ground arith) (ground arith)
              ∙ ground arith)
      | inr four ↦
          rw (more, more', four)
            (decode_four (0xF0 + cp / 262144) (0x80 + cp / 4096 % 64) (0x80 + cp / 64 % 64)
                (0x80 + cp % 64) rest (ground arith) (ground arith) (ground arith) (ground arith)
              ∙ ground arith)
    ]
  ]
]
