-- ===== src/Utf8/Cut.antt =====
-- The functions of src/utf8.c that shorten a string, on well-formed UTF-8.
use tnt.Base.{
  ℕ, zero, suc, ◌+◌, ◌-◌, ◌≤◌, ◌<◌, ◌≡◌, refl, ap, ◌∙◌, sym, List, [], ◌∷◌, ◌++◌, ltb,
  if◌then◌else◌, length, arith, Bytes, take, drop, inl, inr, Bool-cases, ◌⊎◌, All,
  take-length-append, length-append, append_assoc,
}
use tnt.Utf8.{decode, char_width, truncate_at, truncate}
use tnt.Utf8.Spec.{IsScalar, encoding, encoded_length, encode_all, IsUtf8}
use tnt.Utf8.Text.{drop-encoding, one-le-length, length-encoding}
use tnt.Utf8.Sequence.{decode-encoding}
use tnt.Utf8.Measure.{widths}

pub encode_all-append : (xs ys : List ℕ) → encode_all (xs ++ ys) ≡ encode_all xs ++ encode_all ys
encode_all-append [] ys = refl
encode_all-append (x ∷ xs) ys =
    ap (λ t. encoding x ++ t) (encode_all-append xs ys)
    ∙ sym (append_assoc (encoding x) (encode_all xs) (encode_all ys))

-- The code points of a text, cut in two where a width is used up.
record Fits (room : ℕ) (cps kept : List ℕ) : Type 0 where
  pub cut : List ℕ
  pub whole : kept ++ cut ≡ cps
  pub within : widths kept ≤ room
  pub longest :
      (cut ≡ [])
      ⊎ ((cp : ℕ) × (more : List ℕ) × (cut ≡ cp ∷ more) × (room < widths kept + char_width cp))

-- What fits, from the front.
abbrev fit : ℕ → List ℕ → List ℕ
fit room [] = []
fit room (cp ∷ cps) = if ltb room (char_width cp) then [] else cp ∷ fit (room - char_width cp) cps

fit-Fits : (room : ℕ) (cps : List ℕ) → Fits room cps (fit room cps)
fit-Fits room [] = record { cut = []; whole = refl; within = omega arith; longest = inl refl }
fit-Fits room (cp ∷ cps) = elim (Bool-cases (ltb room (char_width cp))) [
  | inl full ↦ rw full (record {
    cut = cp ∷ cps;
    whole = refl;
    within = omega arith;
    longest = inr (cp, cps, refl, ground arith);
  })
  | inr fits ↦
      let r = fit-Fits (room - char_width cp) cps in
      rw fits (record {
        cut = r.cut;
        whole = ap (◌∷◌ cp) r.whole;
        within = ground (arith, r.within);
        longest = elim r.longest [
          | inl e ↦ inl e
          | inr (next, more, e, h) ↦ inr (next, more, e, ground arith)
        ];
      })
]

truncate_at_step :
    (fuel max_width : ℕ) (s : Bytes) (width last_valid : ℕ)
    → 1 ≤ length s
    → truncate_at (suc fuel) max_width s width last_valid ≡ (
        if ltb max_width (width + char_width (decode s).0)
        then last_valid
        else truncate_at fuel max_width
            (drop (decode s).1 s)
            (width + char_width (decode s).0)
            (last_valid + (decode s).1))
unfolding truncate_at
truncate_at_step fuel max_width [] width last_valid h = absurd (omega arith)
truncate_at_step fuel max_width (b ∷ s) width last_valid h = refl

truncate_at_nil :
    (fuel max_width width last_valid : ℕ)
    → truncate_at fuel max_width [] width last_valid ≡ last_valid
unfolding truncate_at
truncate_at_nil zero max_width width last_valid = refl
truncate_at_nil (suc fuel) max_width width last_valid = refl

truncate_at_points :
    (cps : List ℕ) (fuel max_width width last_valid : ℕ)
    → length (encode_all cps) ≤ fuel
    → All IsScalar cps
    → width ≤ max_width
    → truncate_at fuel max_width (encode_all cps) width last_valid
      ≡ last_valid + length (encode_all (fit (max_width - width) cps))
truncate_at_points [] fuel max_width width last_valid h a w =
    truncate_at_nil fuel max_width width last_valid ∙ omega arith
truncate_at_points (cp ∷ cps) zero max_width width last_valid h a w =
    absurd (omega (arith, one-le-length cp (encode_all cps)))
truncate_at_points (cp ∷ cps) (suc fuel) max_width width last_valid h a w =
    truncate_at_step fuel max_width (encode_all (cp ∷ cps)) width last_valid
      (omega (arith, one-le-length cp (encode_all cps)))
    ∙ rw (decode-encoding cp (encode_all cps) a.0, drop-encoding cp (encode_all cps))
        (ground (
          arith,
          truncate_at_points cps fuel max_width (width + char_width cp)
              (last_valid + encoded_length cp),
          one-le-length cp (encode_all cps),
          length-append (encoding cp) (encode_all (fit (max_width - width - char_width cp) cps)),
          length-encoding cp,
          same_room,
        ))
  where
    same_room : max_width - (width + char_width cp) ≡ max_width - width - char_width cp
    same_room = omega arith

-- What `utf8_truncate` leaves of a text.
pub record Truncates (s : Bytes) (max_width : ℕ) (t : Bytes) : Type 0 where
  pub kept : List ℕ
  pub cut : List ℕ
  pub scalars : All IsScalar (kept ++ cut)
  pub before : encode_all (kept ++ cut) ≡ s
  pub after : encode_all kept ≡ t
  pub within : widths kept ≤ max_width
  pub longest :
      (cut ≡ [])
      ⊎ ((cp : ℕ) × (more : List ℕ) × (cut ≡ cp ∷ more) × (max_width < widths kept + char_width cp))

truncate_points :
    (cps : List ℕ) (max_width : ℕ)
    → All IsScalar cps
    → truncate (encode_all cps) max_width ≡ encode_all (fit max_width cps)
unfolding truncate
truncate_points cps max_width a =
    let r = fit-Fits max_width cps in
    ap (λ n. take n (encode_all cps))
      (truncate_at_points cps (length (encode_all cps)) max_width 0 0 (omega arith) a (omega arith)
        ∙ same)
    ∙ ap (λ t. take (length (encode_all (fit max_width cps))) t)
        (ap encode_all (sym r.whole) ∙ encode_all-append (fit max_width cps) r.cut)
    ∙ take-length-append (encode_all (fit max_width cps)) (encode_all r.cut)
  where
    no_columns : max_width - 0 ≡ max_width
    no_columns = omega arith

    same :
        0 + length (encode_all (fit (max_width - 0) cps)) ≡ length (encode_all (fit max_width cps))
    same = rw no_columns (omega arith)

-- On well-formed UTF-8, truncation keeps whole code points: the longest run of them, from the
-- front, whose columns fit into the width.
pub truncate-Truncates :
    (s : Bytes) (max_width : ℕ) → IsUtf8 s → Truncates s max_width (truncate s max_width)
truncate-Truncates s max_width u =
    let r = fit-Fits max_width u.points in
    record {
      kept = fit max_width u.points;
      cut = r.cut;
      scalars = rw r.whole u.scalars;
      before = ap encode_all r.whole ∙ u.spells;
      after =
          sym (truncate_points u.points max_width u.scalars)
          ∙ ap (λ t. truncate t max_width) u.spells;
      within = r.within;
      longest = r.longest;
    }
