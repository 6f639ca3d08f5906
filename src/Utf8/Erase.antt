-- ===== src/Utf8/Erase.antt =====
-- src/utf8.c: what the two backspaces and a test of a sequence mean for the bytes of a text.
use mathlib.Core.Path.{subst}
use tnt.Base.{
  ℕ, zero, suc, ◌-◌, ◌≤◌, ◌<◌, List, [], ◌∷◌, ◌++◌, ltb, length, take, Bytes, char_at, ◌≡◌, refl,
  sym, ap, ◌∙◌, ◌⊎◌, inl, inr, arith, All, All-append_inv, Bool-cases, ltb→lt, not-ltb→le, ◌==◌,
  ==_iff, drop-all, append-nil, true,
}
use tnt.Utf8.Valid.{valid_sequence-Spells}
use tnt.Utf8.{is_valid_sequence, char_start, remove_last_char, remove_last_word}
use tnt.Utf8.Spec.{IsScalar, IsUtf8, encoding, encode_all}
use tnt.Utf8.Backspace.{remove_last_char-concat, remove_last_word-WordRemoved}

-- A list is empty or has a last element.
last_or_empty {ℓ} :
    {A : Type ℓ} (xs : List A) → (xs ≡ []) ⊎ ((ys : List A) × (y : A) × (xs ≡ ys ++ y ∷ []))
last_or_empty [] = inl refl
last_or_empty (x ∷ xs) = elim (last_or_empty xs) [
  | inl empty ↦ inr ([], x, ap (◌∷◌ x) empty)
  | inr (ys, y, e) ↦ inr (x ∷ ys, y, ap (◌∷◌ x) e)
]

utf8_of : (cps : List ℕ) → All IsScalar cps → IsUtf8 (encode_all cps)
utf8_of cps h = record { points = cps; scalars = h; spells = refl }

pub remove_last_char-IsUtf8 : (s : Bytes) → IsUtf8 s → IsUtf8 (remove_last_char s)
remove_last_char-IsUtf8 s u = elim (last_or_empty u.points) [
  | inl empty ↦
      let none_left : s ≡ [] = sym u.spells ∙ ap encode_all empty in
      rw none_left (unfold remove_last_char in utf8_of [] tt)
  | inr (cps, cp, e) ↦
      let scalars = All-append_inv IsScalar cps (cp ∷ []) (subst (All IsScalar) e u.scalars) in
      let whole : s ≡ encode_all (cps ++ cp ∷ []) = sym u.spells ∙ ap encode_all e in
      rw (whole, remove_last_char-concat cps cp scalars.1.0) (utf8_of cps scalars.0)
]

pub encoding_high : (cp : ℕ) → IsScalar cp → 128 ≤ cp → All (λ b. 128 ≤ b) (encoding cp)
encoding_high cp h k = ground arith

encoding_low : (cp : ℕ) → cp < 128 → encoding cp ≡ cp ∷ []
encoding_low cp h = ground arith

char_at-append_left : (xs ys : Bytes) (i : ℕ) → i < length xs → char_at (xs ++ ys) i ≡ char_at xs i
char_at-append_left [] ys i h = absurd (omega arith)
char_at-append_left (x ∷ xs) ys zero h = refl
char_at-append_left (x ∷ xs) ys (suc i) h = char_at-append_left xs ys i (omega arith)

char_at-append_right :
    (xs ys : Bytes) (i : ℕ) → length xs ≤ i → char_at (xs ++ ys) i ≡ char_at ys (i - length xs)
char_at-append_right [] ys i h = ap (λ (n : ℕ). char_at ys n) (omega arith)
char_at-append_right (x ∷ xs) ys zero h = absurd (omega arith)
char_at-append_right (x ∷ xs) ys (suc i) h =
    let same : suc i - suc (length xs) ≡ i - length xs = omega arith in
    rw same (char_at-append_right xs ys i (omega arith))

take-append_right :
    (xs ys : Bytes) (i : ℕ) → length xs ≤ i → take i (xs ++ ys) ≡ xs ++ take (i - length xs) ys
take-append_right [] ys i h = ap (λ (n : ℕ). take n ys) (omega arith)
take-append_right (x ∷ xs) ys zero h = absurd (omega arith)
take-append_right (x ∷ xs) ys (suc i) h =
    let same : suc i - suc (length xs) ≡ i - length xs = omega arith in
    rw same (ap (◌∷◌ x) (take-append_right xs ys i (omega arith)))

All-char_at : (P : ℕ → Type 0) (xs : Bytes) (i : ℕ) → All P xs → i < length xs → P (char_at xs i)
All-char_at P [] i h k = absurd (omega arith)
All-char_at P (x ∷ xs) zero h k = h.0
All-char_at P (x ∷ xs) (suc i) h k = All-char_at P xs i h.1 (omega arith)

append-IsUtf8 : (cp : ℕ) (t : Bytes) → IsScalar cp → IsUtf8 t → IsUtf8 (encoding cp ++ t)
append-IsUtf8 cp t h u = record {
  points = cp ∷ u.points;
  scalars = (h, u.scalars);
  spells = ap (λ r. encoding cp ++ r) u.spells;
}

cut_behind_ascii :
    (cps : List ℕ) (i : ℕ)
    → All IsScalar cps
    → char_at (encode_all cps) i < 128
    → IsUtf8 (take (suc i) (encode_all cps))
cut_behind_ascii [] i h k = utf8_of [] tt
cut_behind_ascii (cp ∷ cps) i h k =
    let rest = encode_all cps in
    let e = encoding cp in
    elim (Bool-cases (ltb i (length e))) [
      | inl within ↦ elim (Bool-cases (ltb cp 128)) [
        | inl low ↦
            let single = encoding_low cp (ltb→lt cp 128 low) in
            let one : length e ≡ 1 = ap length single in
            let inside = ltb→lt i (length e) within in
            let none_left : suc i - length e ≡ 0 = omega arith in
            rw (take-append_right e rest (suc i) (omega arith), none_left)
              (append-IsUtf8 cp [] h.0 (utf8_of [] tt))
        | inr high ↦
            let inside = ltb→lt i (length e) within in
            let big =
              All-char_at (λ b. 128 ≤ b) e i (encoding_high cp h.0 (not-ltb→le cp 128 high))
                inside in
            absurd (omega (arith, char_at-append_left e rest i inside))
      ]
      | inr past ↦
          let beyond = not-ltb→le i (length e) past in
          let next : suc i - length e ≡ suc (i - length e) = omega arith in
          rw (take-append_right e rest (suc i) (omega arith), next)
            (append-IsUtf8 cp (take (suc (i - length e)) rest) h.0 (
              cut_behind_ascii cps (i - length e) h.1
                (omega (arith, char_at-append_right e rest i beyond))))
    ]

-- The part up to an ASCII byte.
pub cut-IsUtf8 : (s : Bytes) (i : ℕ) → IsUtf8 s → char_at s i < 128 → IsUtf8 (take (suc i) s)
cut-IsUtf8 s i u =
    subst (λ t. char_at t i < 128 → IsUtf8 (take (suc i) t)) u.spells
      (cut_behind_ascii u.points i u.scalars)

pub remove_last_word-IsUtf8 : (s : Bytes) → IsUtf8 s → IsUtf8 (remove_last_word s)
remove_last_word-IsUtf8 s u =
    let r = remove_last_word-WordRemoved s in
    rw r.rest (elim r.word.stopped [
      | inl front ↦ rw front (utf8_of [] tt)
      | inr stop ↦ elim (Bool-cases (r.word_start == 0)) [
        | inl front ↦ rw ((==_iff r.word_start 0).0 front) (utf8_of [] tt)
        | inr behind ↦
            let space : char_at s (r.word_start - 1) ≡ 32 = ground arith in
            let before : r.word_start ≡ suc (r.word_start - 1) = ground arith in
            rw before (cut-IsUtf8 s (r.word_start - 1) u (omega arith))
      ]
    ])

-- Both leave a part from the front.
pub remove_last_char-take : (s : Bytes) → (k : ℕ) × (remove_last_char s ≡ take k s)
unfolding remove_last_char
remove_last_char-take [] = (0, refl)
remove_last_char-take (b ∷ s) = (char_start (b ∷ s) (length (b ∷ s) - 1), ground arith)

pub remove_last_word-take : (s : Bytes) → (k : ℕ) × (remove_last_word s ≡ take k s)
remove_last_word-take s = let r = remove_last_word-WordRemoved s in (r.word_start, r.rest)

high_first : (cp b : ℕ) (rest : Bytes) → encoding cp ≡ b ∷ rest → 128 ≤ b → 128 ≤ cp
high_first cp b rest e h = ground arith

-- All bytes of a sequence that is valid are high where the first one is.
pub valid_sequence-high :
    (b : ℕ) (rest : Bytes) (len : ℕ)
    → 128 ≤ b
    → All (λ x. x < 256) (b ∷ rest)
    → length (b ∷ rest) ≡ len
    → is_valid_sequence (b ∷ rest) len ≡ true
    → All (λ x. 128 ≤ x) (b ∷ rest)
valid_sequence-high b rest len high bytes size valid =
    let r = valid_sequence-Spells (b ∷ rest) len bytes valid in
    let exact : encoding r.point ≡ b ∷ rest = sym (
      r.bytes
      ∙ ap (λ t. encoding r.point ++ t) (drop-all len (b ∷ rest) (omega arith))
      ∙ append-nil (encoding r.point)) in
    subst (All (λ x. 128 ≤ x)) exact
      (encoding_high r.point r.scalar (high_first r.point b rest exact high))
