-- ===== src/Utf8/Measure.antt =====
-- The loops of src/utf8.c that measure and cut strings.
use tnt.Base.{
  ℕ, zero, suc, ◌+◌, ◌-◌, ◌≤◌, ◌<◌, Bool, true, false, ◌≡◌, refl, ◌∙◌, List, [], ◌∷◌, if◌then◌else◌,
  length, arith, Bytes, char_at, drop, inl, inr, ◌⊎◌, All,
}
use tnt.Utf8.{
  byte_length, decode, decode_continues, char_width, string_width_from, string_width, strlen_from,
  strlen,
}
use tnt.Utf8.Spec.{IsScalar, encode_all}
use tnt.Utf8.Text.{drop-encoding, one-le-length}
use tnt.Utf8.Sequence.{decode-encoding}

char_at_bound : (s : Bytes) (i : ℕ) → (char_at s i ≡ 0) ⊎ (i < length s)
char_at_bound [] i = inl refl
char_at_bound (b ∷ s) zero = inr (omega arith)
char_at_bound (b ∷ s) (suc i) = elim (char_at_bound s i) [
  | inl e ↦ inl e
  | inr h ↦ inr (omega arith)
]

decode_continues_bound :
    (rounds i : ℕ) (s : Bytes)
    → i ≤ length s
    → decode_continues rounds i s ≡ true
    → i + rounds ≤ length s
unfolding decode_continues
decode_continues_bound zero i s h c = omega arith
decode_continues_bound (suc rounds) i s h c =
    ground (arith, char_at_bound s i, decode_continues_bound rounds (i + 1) s)

byte_length_bounds : (b : ℕ) → (1 ≤ byte_length b) × (byte_length b ≤ 4)
unfolding byte_length
byte_length_bounds b = ground arith

-- At the start of any string that is not empty, `utf8_decode` reads at least one byte, at most
-- four, and none behind the NUL, whatever the bytes are.
pub decode_bounds :
    (s : Bytes) → 1 ≤ length s → (1 ≤ (decode s).1) × ((decode s).1 ≤ 4) × ((decode s).1 ≤ length s)
unfolding decode
decode_bounds s h = ground (
  arith,
  byte_length_bounds (char_at s 0),
  decode_continues_bound (byte_length (char_at s 0) - 1) 1 s,
)

-- A width of the table is one column or two.
abbrev Narrow : ℕ → Type 0
Narrow w = (1 ≤ w) × (w ≤ 2)

if-Narrow : (b : Bool) {x y : ℕ} → Narrow x → Narrow y → Narrow (if b then x else y)
if-Narrow true h k = h
if-Narrow false h k = k

one_column : Narrow 1
one_column = omega arith

two_columns : Narrow 2
two_columns = omega arith

pub char_width_bounds : (cp : ℕ) → (1 ≤ char_width cp) × (char_width cp ≤ 2)
unfolding char_width
char_width_bounds cp = search (if-Narrow, one_column, two_columns) depth 7

-- The columns that code points take.
abbrev pub widths : List ℕ → ℕ
widths [] = 0
widths (cp ∷ cps) = char_width cp + widths cps

-- One round of each loop, at a string that is not empty.
strlen_from_step :
    (fuel : ℕ) (s : Bytes) (n : ℕ)
    → 1 ≤ length s
    → strlen_from (suc fuel) s n ≡ strlen_from fuel (drop (decode s).1 s) (n + 1)
unfolding strlen_from
strlen_from_step fuel [] n h = absurd (omega arith)
strlen_from_step fuel (b ∷ s) n h = refl

string_width_from_step :
    (fuel : ℕ) (s : Bytes) (n : ℕ)
    → 1 ≤ length s
    → string_width_from (suc fuel) s n
      ≡ string_width_from fuel (drop (decode s).1 s) (n + char_width (decode s).0)
unfolding string_width_from
string_width_from_step fuel [] n h = absurd (omega arith)
string_width_from_step fuel (b ∷ s) n h = refl

strlen_from_points :
    (cps : List ℕ) (fuel n : ℕ)
    → length (encode_all cps) ≤ fuel
    → All IsScalar cps
    → strlen_from fuel (encode_all cps) n ≡ n + length cps
unfolding strlen_from
strlen_from_points [] zero n h a = omega arith
strlen_from_points [] (suc fuel) n h a = omega arith
strlen_from_points (cp ∷ cps) zero n h a = absurd (omega (arith, one-le-length cp (encode_all cps)))
strlen_from_points (cp ∷ cps) (suc fuel) n h a =
    strlen_from_step fuel (encode_all (cp ∷ cps)) n
      (omega (arith, one-le-length cp (encode_all cps)))
    ∙ rw (decode-encoding cp (encode_all cps) a.0, drop-encoding cp (encode_all cps))
        (strlen_from_points cps fuel (n + 1) (omega (arith, one-le-length cp (encode_all cps))) a.1
          ∙ omega arith)

string_width_from_points :
    (cps : List ℕ) (fuel n : ℕ)
    → length (encode_all cps) ≤ fuel
    → All IsScalar cps
    → string_width_from fuel (encode_all cps) n ≡ n + widths cps
unfolding string_width_from
string_width_from_points [] zero n h a = omega arith
string_width_from_points [] (suc fuel) n h a = omega arith
string_width_from_points (cp ∷ cps) zero n h a =
    absurd (omega (arith, one-le-length cp (encode_all cps)))
string_width_from_points (cp ∷ cps) (suc fuel) n h a =
    string_width_from_step fuel (encode_all (cp ∷ cps)) n
      (omega (arith, one-le-length cp (encode_all cps)))
    ∙ rw (decode-encoding cp (encode_all cps) a.0, drop-encoding cp (encode_all cps))
        (string_width_from_points cps fuel (n + char_width cp)
            (omega (arith, one-le-length cp (encode_all cps))) a.1
          ∙ omega arith)

-- On the text of code points, the two loops count the code points and add up their columns.
pub measure_points :
    (cps : List ℕ)
    → All IsScalar cps
    → (strlen (encode_all cps) ≡ length cps) × (string_width (encode_all cps) ≡ widths cps)
unfolding strlen string_width
measure_points cps a = (
  omega (arith, strlen_from_points cps (length (encode_all cps)) 0 (omega arith) a),
  omega (arith, string_width_from_points cps (length (encode_all cps)) 0 (omega arith) a),
)
