-- ===== src/Utf8/Valid.antt =====
-- `utf8_is_valid_sequence` accepts exactly the encodings of scalar values.
use tnt.Base.{
  ℕ, zero, suc, ◌+◌, ◌*◌, ◌/◌, ◌%◌, ◌≤◌, ◌<◌, true, ◌≡◌, ◌↔◌, refl, ap, ◌∙◌, sym, [], ◌∷◌, ◌++◌,
  ltb, arith, Bytes, drop, inl, inr, Bool-cases, All,
}
use mathlib.Core.Path.{subst}
use tnt.Utf8.{combine, is_valid_sequence}
use tnt.Utf8.Lead.{byte_length_lem, is_continuation_lem}
use tnt.Utf8.Combine.{combine_two, combine_three, combine_four}
use tnt.Utf8.Spec.{IsScalar, encoding, encoded_length}

abbrev pub IsByte : ℕ → Type 0
IsByte b = b < 256

-- A sequence of `n` bytes that spells a scalar value, with the rest behind it.
pub record Spells (n : ℕ) (s : Bytes) : Type 0 where
  pub point : ℕ
  pub scalar : IsScalar point
  pub size : n ≡ encoded_length point
  pub bytes : s ≡ encoding point ++ drop n s

Spells-one : (s : Bytes) → All IsByte s → is_valid_sequence s 1 ≡ true → Spells 1 s
unfolding is_valid_sequence combine
Spells-one [] h v = ground (arith, byte_length_lem 0)
Spells-one (a ∷ r) h v = record {
  point = a;
  scalar = ground (arith, byte_length_lem a);
  size = ground (arith, byte_length_lem a);
  bytes = ground (arith, byte_length_lem a);
}

Spells-two : (s : Bytes) → All IsByte s → is_valid_sequence s 2 ≡ true → Spells 2 s
unfolding is_valid_sequence
Spells-two [] h v = ground (arith, byte_length_lem 0)
Spells-two (a ∷ []) h v = ground (arith, is_continuation_lem 0)
Spells-two (a ∷ b ∷ r) h v = record {
  point = a % 32 * 64 + b % 64;
  scalar = ground (arith, combine_two a b 0 0 r, byte_length_lem a, is_continuation_lem b);
  size = ground (arith, combine_two a b 0 0 r, byte_length_lem a, is_continuation_lem b);
  bytes = ground (arith, combine_two a b 0 0 r, byte_length_lem a, is_continuation_lem b);
}

Spells-three : (s : Bytes) → All IsByte s → is_valid_sequence s 3 ≡ true → Spells 3 s
unfolding is_valid_sequence
Spells-three [] h v = ground (arith, byte_length_lem 0)
Spells-three (a ∷ []) h v = ground (arith, is_continuation_lem 0)
Spells-three (a ∷ b ∷ []) h v = ground (arith, is_continuation_lem 0)
Spells-three (a ∷ b ∷ c ∷ r) h v = record {
  point = (a % 16 * 64 + b % 64) * 64 + c % 64;
  scalar = ground (
    arith,
    combine_three a b c 0 r,
    byte_length_lem a,
    is_continuation_lem b,
    is_continuation_lem c,
  );
  size = ground (
    arith,
    combine_three a b c 0 r,
    byte_length_lem a,
    is_continuation_lem b,
    is_continuation_lem c,
  );
  bytes = ground (
    arith,
    combine_three a b c 0 r,
    byte_length_lem a,
    is_continuation_lem b,
    is_continuation_lem c,
  );
}

Spells-four : (s : Bytes) → All IsByte s → is_valid_sequence s 4 ≡ true → Spells 4 s
unfolding is_valid_sequence
Spells-four [] h v = ground (arith, byte_length_lem 0)
Spells-four (a ∷ []) h v = ground (arith, is_continuation_lem 0)
Spells-four (a ∷ b ∷ []) h v = ground (arith, is_continuation_lem 0)
Spells-four (a ∷ b ∷ c ∷ []) h v = ground (arith, is_continuation_lem 0)
Spells-four (a ∷ b ∷ c ∷ d ∷ r) h v = record {
  point = ((a % 8 * 64 + b % 64) * 64 + c % 64) * 64 + d % 64;
  scalar = ground (
    arith,
    combine_four a b c d r,
    byte_length_lem a,
    is_continuation_lem b,
    is_continuation_lem c,
    is_continuation_lem d,
  );
  size = ground (
    arith,
    combine_four a b c d r,
    byte_length_lem a,
    is_continuation_lem b,
    is_continuation_lem c,
    is_continuation_lem d,
  );
  bytes = ground (
    arith,
    combine_four a b c d r,
    byte_length_lem a,
    is_continuation_lem b,
    is_continuation_lem c,
    is_continuation_lem d,
  );
}

-- Any other length is refused.
pub valid_sequence_length : (s : Bytes) (n : ℕ) → is_valid_sequence s n ≡ true → (1 ≤ n) × (n ≤ 4)
unfolding is_valid_sequence
valid_sequence_length s n v = ground arith

pub valid_sequence-Spells :
    (s : Bytes) (n : ℕ) → All IsByte s → is_valid_sequence s n ≡ true → Spells n s
valid_sequence-Spells s zero h v = absurd (omega (arith, valid_sequence_length s 0 v))
valid_sequence-Spells s (suc zero) h v = Spells-one s h v
valid_sequence-Spells s (suc (suc zero)) h v = Spells-two s h v
valid_sequence-Spells s (suc (suc (suc zero))) h v = Spells-three s h v
valid_sequence-Spells s (suc (suc (suc (suc zero)))) h v = Spells-four s h v
valid_sequence-Spells s (suc (suc (suc (suc (suc n))))) h v =
    absurd (omega (arith, valid_sequence_length s (suc (suc (suc (suc (suc n))))) v))

-- The other way round: the bytes of a scalar value are accepted.
module _ (cp : ℕ) (rest : Bytes) (h : IsScalar cp) where
  valid_one : cp < 0x80 → is_valid_sequence (cp ∷ rest) 1 ≡ true
  unfolding is_valid_sequence combine
  valid_one k = ground (arith, byte_length_lem cp)

  valid_two :
      0x80 ≤ cp
      → cp < 0x800
      → is_valid_sequence ((0xC0 + cp / 64) ∷ (0x80 + cp % 64) ∷ rest) 2 ≡ true
  unfolding is_valid_sequence
  valid_two j k = ground (
    arith,
    byte_length_lem (0xC0 + cp / 64),
    is_continuation_lem (0x80 + cp % 64),
    combine_two (0xC0 + cp / 64) (0x80 + cp % 64) 0 0 rest,
  )

  valid_three :
      0x800 ≤ cp
      → cp < 0x10000
      → is_valid_sequence ((0xE0 + cp / 4096) ∷ (0x80 + cp / 64 % 64) ∷ (0x80 + cp % 64) ∷ rest) 3
        ≡ true
  unfolding is_valid_sequence
  valid_three j k = ground (
    arith,
    byte_length_lem (0xE0 + cp / 4096),
    is_continuation_lem (0x80 + cp / 64 % 64),
    is_continuation_lem (0x80 + cp % 64),
    combine_three (0xE0 + cp / 4096) (0x80 + cp / 64 % 64) (0x80 + cp % 64) 0 rest,
  )

  valid_four :
      0x10000 ≤ cp
      → is_valid_sequence
          ((0xF0 + cp / 262144)
            ∷ (0x80 + cp / 4096 % 64)
            ∷ (0x80 + cp / 64 % 64)
            ∷ (0x80 + cp % 64)
            ∷ rest)
          4
        ≡ true
  unfolding is_valid_sequence
  valid_four j = ground (
    arith,
    byte_length_lem (0xF0 + cp / 262144),
    is_continuation_lem (0x80 + cp / 4096 % 64),
    is_continuation_lem (0x80 + cp / 64 % 64),
    is_continuation_lem (0x80 + cp % 64),
    combine_four (0xF0 + cp / 262144) (0x80 + cp / 4096 % 64) (0x80 + cp / 64 % 64) (0x80 + cp % 64)
        rest,
  )

  pub valid_sequence-encoding : is_valid_sequence (encoding cp ++ rest) (encoded_length cp) ≡ true
  valid_sequence-encoding = elim (Bool-cases (ltb cp 0x80)) [
    | inl one ↦ rw one (valid_one (ground arith))
    | inr more ↦ elim (Bool-cases (ltb cp 0x800)) [
      | inl two ↦ rw (more, two) (valid_two (ground arith) (ground arith))
      | inr more' ↦ elim (Bool-cases (ltb cp 0x10000)) [
        | inl three ↦ rw (more, more', three) (valid_three (ground arith) (ground arith))
        | inr four ↦ rw (more, more', four) (valid_four (ground arith))
      ]
    ]
  ]

pub valid_sequence_of_Spells : (s : Bytes) (n : ℕ) → Spells n s → is_valid_sequence s n ≡ true
valid_sequence_of_Spells s n r = rw (r.size) (
    subst (λ t. is_valid_sequence t (encoded_length r.point) ≡ true)
      (ap (λ k. encoding r.point ++ drop k s) refl ∙ sym (r.bytes))
      (valid_sequence-encoding r.point (drop n s) r.scalar))

-- A sequence of bytes is accepted at a length exactly when its first bytes are the RFC 3629 encoding,
-- of that length, of a code point that is not NUL, no surrogate and at most U+10FFFF.
pub valid_sequence_iff :
    (s : Bytes) (n : ℕ) → All IsByte s → (is_valid_sequence s n ≡ true) ↔ Spells n s
valid_sequence_iff s n h = (valid_sequence-Spells s n h, valid_sequence_of_Spells s n)
