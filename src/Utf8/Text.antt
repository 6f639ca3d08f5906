-- ===== src/Utf8/Text.antt =====
-- `utf8_is_valid_string` accepts exactly the strings that are well-formed UTF-8.
use mathlib.Core.Path.{subst}
use tnt.Base.{
  ℕ, zero, suc, ◌+◌, ◌-◌, ◌≤◌, true, ◌&&◌, ◌≡◌, ◌↔◌, refl, ap, ◌∙◌, sym, List, [], ◌∷◌, ◌++◌,
  length, arith, Bytes, char_at, IsCString, drop, inl, inr, Bool-cases, All, All-append_inv,
  drop-length-append, length-drop, length-append,
}
use tnt.Utf8.{
  byte_length, is_continuation, is_valid_sequence, valid_continues, no_nul, valid_from,
  is_valid_string,
}
use tnt.Utf8.Spec.{IsScalar, encoding, encoded_length, encode_all, IsUtf8}
use tnt.Utf8.Valid.{
  Spells, IsByte, valid_sequence_length, valid_sequence-Spells, valid_sequence-encoding,
}

pub length-encoding : (cp : ℕ) → length (encoding cp) ≡ encoded_length cp
length-encoding cp = ground arith

pub encoded_length_bounds : (cp : ℕ) → (1 ≤ encoded_length cp) × (encoded_length cp ≤ 4)
encoded_length_bounds cp = ground arith

pub encoding-IsCString : (cp : ℕ) → IsScalar cp → IsCString (encoding cp)
encoding-IsCString cp h = ground arith

pub drop-encoding : (cp : ℕ) (rest : Bytes) → drop (encoded_length cp) (encoding cp ++ rest) ≡ rest
drop-encoding cp rest = rw (← length-encoding cp) (drop-length-append (encoding cp) rest)

IsCString-IsByte : (s : Bytes) → IsCString s → All IsByte s
IsCString-IsByte [] h = tt
IsCString-IsByte (b ∷ s) h = (h.0.1, IsCString-IsByte s h.1)

lead_length : (s : Bytes) (n : ℕ) → is_valid_sequence s n ≡ true → byte_length (char_at s 0) ≡ n
unfolding is_valid_sequence
lead_length s n v = ground arith

pub byte_length-encoding :
    (cp : ℕ) (rest : Bytes)
    → IsScalar cp
    → byte_length (char_at (encoding cp ++ rest) 0) ≡ encoded_length cp
byte_length-encoding cp rest h =
    lead_length (encoding cp ++ rest) (encoded_length cp) (valid_sequence-encoding cp rest h)

-- A continuation byte is not NUL.
continues-no_nul :
    (rounds i : ℕ) (s : Bytes) → valid_continues rounds i s ≡ true → no_nul rounds i s ≡ true
unfolding valid_continues no_nul is_continuation
continues-no_nul zero i s h = refl
continues-no_nul (suc rounds) i s h = ground (arith, continues-no_nul rounds (i + 1) s)

valid_sequence-no_nul :
    (s : Bytes) (n : ℕ) → is_valid_sequence s n ≡ true → no_nul (n - 1) 1 s ≡ true
unfolding is_valid_sequence
valid_sequence-no_nul s n v = ground (arith, continues-no_nul (n - 1) 1 s)

-- One round of the loop.
valid_from_step :
    (fuel : ℕ) (s : Bytes)
    → 1 ≤ length s
    → valid_from (suc fuel) s
      ≡ is_valid_sequence s (byte_length (char_at s 0))
        && valid_from fuel (drop (byte_length (char_at s 0)) s)
unfolding valid_from
valid_from_step fuel [] h = absurd (omega arith)
valid_from_step fuel (b ∷ p) h = elim (Bool-cases (is_valid_sequence (b ∷ p) (byte_length b))) [
  | inl v ↦
      rw (v, valid_sequence-no_nul (b ∷ p) (byte_length b) v)
        (ground (arith, valid_sequence_length (b ∷ p) (byte_length b) v))
  | inr v ↦ rw v (ground arith)
]

-- A string splits where an accepted sequence ends.
Spells-All : (P : ℕ → Type 0) (n : ℕ) (s : Bytes) → Spells n s → All P s → All P (drop n s)
Spells-All P n s r c = (All-append_inv P (encoding r.point) (drop n s) (subst (All P) r.bytes c)).1

valid_from_sound :
    (fuel : ℕ) (s : Bytes) → length s ≤ fuel → All IsByte s → valid_from fuel s ≡ true → IsUtf8 s
valid_from_sound fuel [] h c v = record { points = []; scalars = tt; spells = refl }
valid_from_sound zero (b ∷ p) h c v = absurd (omega arith)
valid_from_sound (suc fuel) (b ∷ p) h c v =
    let both : (is_valid_sequence (b ∷ p) (byte_length b) ≡ true)
        × (valid_from fuel (drop (byte_length b) (b ∷ p)) ≡ true) =
      ground (arith, valid_from_step fuel (b ∷ p)) in
    let r = valid_sequence-Spells (b ∷ p) (byte_length b) c both.0 in
    let later =
      valid_from_sound fuel (drop (byte_length b) (b ∷ p))
        (omega (
          arith,
          length-drop (byte_length b) (b ∷ p),
          valid_sequence_length (b ∷ p) (byte_length b) both.0,
        ))
        (Spells-All IsByte (byte_length b) (b ∷ p) r c) both.1 in
    record {
      points = r.point ∷ later.points;
      scalars = (r.scalar, later.scalars);
      spells = ap (λ t. encoding r.point ++ t) later.spells ∙ sym r.bytes;
    }

valid_from_nil : (fuel : ℕ) → valid_from fuel [] ≡ true
unfolding valid_from
valid_from_nil zero = refl
valid_from_nil (suc fuel) = refl

pub one-le-length : (cp : ℕ) (rest : Bytes) → 1 + length rest ≤ length (encoding cp ++ rest)
one-le-length cp rest =
    omega (arith, length-append (encoding cp) rest, length-encoding cp, encoded_length_bounds cp)

valid_from_complete :
    (cps : List ℕ) (fuel : ℕ)
    → length (encode_all cps) ≤ fuel
    → All IsScalar cps
    → valid_from fuel (encode_all cps) ≡ true
valid_from_complete [] fuel h a = valid_from_nil fuel
valid_from_complete (cp ∷ cps) zero h a = absurd (omega (arith, one-le-length cp (encode_all cps)))
valid_from_complete (cp ∷ cps) (suc fuel) h a =
    rw
      (
        valid_from_step fuel (encoding cp ++ encode_all cps)
            (omega (arith, one-le-length cp (encode_all cps))),
        byte_length-encoding cp (encode_all cps) a.0,
        valid_sequence-encoding cp (encode_all cps) a.0,
        drop-encoding cp (encode_all cps),
      )
      (valid_from_complete cps fuel (omega (arith, one-le-length cp (encode_all cps))) a.1)

-- A C string is accepted exactly when it is the concatenation of the RFC 3629 encodings of code
-- points that are scalar values; the fuel that the loop starts with is enough.
pub is_valid_string_iff : (s : Bytes) → IsCString s → (is_valid_string s ≡ true) ↔ IsUtf8 s
unfolding is_valid_string
is_valid_string_iff s c = (
  valid_from_sound (length s) s (omega arith) (IsCString-IsByte s c),
  λ u.
      subst (λ t. valid_from (length t) t ≡ true) u.spells
        (valid_from_complete u.points (length (encode_all u.points)) (omega arith) u.scalars),
)
