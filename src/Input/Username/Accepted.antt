-- ===== src/Input/Username/Accepted.antt =====
-- Whatever is typed, the name that a session starts with obeys the rule for user names.
use mathlib.Core.Path.{subst}
use tnt.Base.{
  ℕ, zero, suc, ◌+◌, ◌-◌, ◌≤◌, ◌<◌, Bool, true, some, List, [], ◌∷◌, ◌++◌, ◌==◌, ltb, length, Bytes,
  ◌≡◌, refl, sym, ap, ap₂, ◌∙◌, ◌⊎◌, inl, inr, arith, All, All-append, All-append_inv,
  length-append, Bool-cases, drop-all, append-nil, Option-cases,
}
use tnt.Common.{is_valid_username}
use tnt.Common.Names.{is_valid_username-append, anonymous_valid}
use tnt.Utf8.Measure.{measure_points, widths, char_width_bounds}
use tnt.Utf8.Cut.{truncate-Truncates, encode_all-append}
use tnt.Utf8.{char_width, byte_length, is_valid_sequence, strlen, truncate}
use tnt.Utf8.Spec.{IsScalar, IsUtf8, encoding, encode_all}
use tnt.Utf8.Text.{length-encoding, encoded_length_bounds}
use tnt.Utf8.Valid.{IsByte, valid_sequence-Spells}
use tnt.Utf8.Erase.{valid_sequence-high}
use tnt.InputBuffer.Feed.{IsLine, point-IsUtf8, All-weaken}
use tnt.InputBuffer.Erase.{remove_last_char-IsLine, remove_last_word-IsLine}
use tnt.Input.Channel.{byte, timeout, Channel, read_once, IsReadByte, read_once-IsByte}
use tnt.MessageLog.{max_username_len}
use tnt.Input.Username.{name_sequence, name_key, name_loop, choose_name, read_username, anonymous}

append_point-IsLine :
    (u bytes : Bytes) (cp : ℕ)
    → IsLine max_username_len u
    → IsScalar cp
    → encoding cp ≡ bytes
    → All (λ b. 32 ≤ b) bytes
    → length u + length bytes < max_username_len
    → IsLine max_username_len (u ++ bytes)
append_point-IsLine u bytes cp h s e p fits = record {
  text = subst (λ t. IsUtf8 (u ++ t)) e (point-IsUtf8 u cp h.text s);
  printable = All-append (λ b. 32 ≤ b) u bytes h.printable p;
  within = omega (arith, length-append u bytes);
}

valid-IsLine :
    (u : Bytes) (b : ℕ) (rest : Bytes) (len : ℕ)
    → IsLine max_username_len u
    → 128 ≤ b
    → All IsByte (b ∷ rest)
    → is_valid_sequence (b ∷ rest) len ≡ true
    → length (b ∷ rest) ≡ len
    → length u + len < max_username_len
    → IsLine max_username_len (u ++ b ∷ rest)
valid-IsLine u b rest len h high bytes valid size fits =
    let r = valid_sequence-Spells (b ∷ rest) len bytes valid in
    let exact : encoding r.point ≡ b ∷ rest = sym (
      r.bytes
      ∙ ap (λ t. encoding r.point ++ t) (drop-all len (b ∷ rest) (omega arith))
      ∙ append-nil (encoding r.point)) in
    let all_high = valid_sequence-high b rest len high bytes size valid in
    append_point-IsLine u (b ∷ rest) r.point h r.scalar exact (All-weaken (b ∷ rest) all_high)
      (omega arith)

name_sequence-IsLine :
    (available : Channel → ℕ) (u : Bytes) (b : ℕ) (c : Channel)
    → IsLine max_username_len u
    → 128 ≤ b
    → b < 256
    → All IsReadByte c
    → let (u', c') = name_sequence available u b c in IsLine max_username_len u' × All IsReadByte c'
unfolding name_sequence
name_sequence-IsLine available u b c h high byte_b reads =
    let len = byte_length b in
    let (rest, c') = read_once available (len - 1) c in
    let (rest_bytes, reads') = read_once-IsByte available (len - 1) c reads in
    ground (arith, reads', valid-IsLine u b rest len h high (byte_b, rest_bytes))

ascii-IsLine :
    (u : Bytes) (b : ℕ)
    → IsLine max_username_len u
    → 32 ≤ b
    → b < 127
    → length u < 63
    → IsLine max_username_len (u ++ b ∷ [])
ascii-IsLine u b h low high fits =
    append_point-IsLine u (b ∷ []) b h (ground arith) (ground arith) (low, tt) (omega arith)

empty-IsLine : IsLine max_username_len []
empty-IsLine = record {
  text = record { points = []; scalars = tt; spells = refl };
  printable = tt;
  within = omega arith;
}

name_key-IsLine :
    (available : Channel → ℕ) (u : Bytes) (b : ℕ) (c : Channel)
    → IsLine max_username_len u
    → b < 256
    → All IsReadByte c
    → let (u', c') = name_key available u b c in IsLine max_username_len u' × All IsReadByte c'
unfolding name_key
name_key-IsLine available u b c h byte_b reads = ground (
  arith,
  empty-IsLine,
  remove_last_word-IsLine max_username_len u h,
  remove_last_char-IsLine max_username_len u h,
  ascii-IsLine u b h,
  λ (high : 128 ≤ b). name_sequence-IsLine available u b c h high byte_b reads,
)

name_loop-IsLine :
    (available : Channel → ℕ) (fuel : ℕ) (c : Channel) (u name : Bytes) (c' : Channel)
    → IsLine max_username_len u
    → All IsReadByte c
    → name_loop available fuel c u ≡ some (name, c')
    → IsLine max_username_len name
unfolding name_loop
name_loop-IsLine available zero c u name c' h reads found = absurd (cc)
name_loop-IsLine available (suc fuel) [] u name c' h reads found = absurd (cc)
name_loop-IsLine available (suc fuel) (timeout ∷ c) u name c' h reads found =
    name_loop-IsLine available fuel c u name c' h reads.1 found
name_loop-IsLine available (suc fuel) (byte b ∷ c) u name c' h reads found =
    let (u', rest) = name_key available u b c in
    let (line, reads') = name_key-IsLine available u b c h reads.0 reads.1 in
    ground (arith, name_loop-IsLine available fuel rest u' name c' line reads')

empty_or_first {ℓ} :
    {A : Type ℓ} (xs : List A) → (xs ≡ []) ⊎ ((x : A) × (ys : List A) × (xs ≡ x ∷ ys))
empty_or_first [] = inl refl
empty_or_first (x ∷ xs) = inr (x, xs, refl)

widths_bound : (cps : List ℕ) → length cps ≤ widths cps
widths_bound [] = omega arith
widths_bound (cp ∷ cps) = omega (arith, widths_bound cps, char_width_bounds cp)

one_width : (cp : ℕ) → char_width cp ≤ 20
one_width cp = omega (arith, char_width_bounds cp)

-- A name of the session: it obeys the rule, has at most twenty code points, and fits its field as
-- printable UTF-8.
pub record IsName (signed : Bool) (name : Bytes) : Type 0 where
  pub valid : is_valid_username signed name ≡ true
  pub points : strlen name ≤ 20
  pub line : IsLine max_username_len name

anonymous-IsName : (signed : Bool) → IsName signed anonymous
anonymous-IsName signed = record {
  valid = anonymous_valid signed;
  points = omega (arith, (measure_points anonymous (omega arith)).0);
  line = record {
    text = record { points = anonymous; scalars = omega arith; spells = refl };
    printable = omega arith;
    within = omega arith;
  };
}

-- A part from the front, of code points whose columns are at most twenty.
prefix-IsName :
    (signed : Bool) (u : Bytes) (c : ℕ) (s rest : Bytes) (kept : List ℕ)
    → IsLine max_username_len u
    → is_valid_username signed u ≡ true
    → u ≡ c ∷ (s ++ rest)
    → All IsScalar kept
    → encode_all kept ≡ c ∷ s
    → widths kept ≤ 20
    → IsName signed (c ∷ s)
prefix-IsName signed u c s rest kept h valid whole scalars spells columns = record {
  valid = is_valid_username-append signed c s rest (rw (← whole) valid);
  points = rw (← spells) (omega (arith, (measure_points kept scalars).0, widths_bound kept));
  line = record {
    text = record { points = kept; scalars = scalars; spells = spells };
    printable =
        (All-append_inv (λ b. 32 ≤ b) (c ∷ s) rest (subst (All (λ b. 32 ≤ b)) whole h.printable)).0;
    within = omega (arith, h.within, ap length whole, length-append s rest);
  };
}

first_of : (cp : ℕ) (cps : List ℕ) → (c : ℕ) × (s : Bytes) × (encode_all (cp ∷ cps) ≡ c ∷ s)
first_of cp cps = elim (empty_or_first (encoding cp)) [
  | inl empty ↦
      absurd (omega (arith, ap length empty, length-encoding cp, encoded_length_bounds cp))
  | inr (c, s, e) ↦ (c, s ++ encode_all cps, ap (λ t. t ++ encode_all cps) e)
]

truncated-IsName :
    (signed : Bool) (u : Bytes)
    → IsLine max_username_len u
    → 0 < length u
    → is_valid_username signed u ≡ true
    → IsName signed (truncate u 20)
truncated-IsName signed u h nonempty valid =
    let r = truncate-Truncates u 20 h.text in
    let scalars = All-append_inv IsScalar r.kept r.cut r.scalars in
    let whole : u ≡ encode_all r.kept ++ encode_all r.cut =
      sym r.before ∙ encode_all-append r.kept r.cut in
    elim (empty_or_first r.kept) [
      | inl empty ↦ elim r.longest [
        | inl all_kept ↦
            let nothing : length u ≡ 0 =
              ap length (whole ∙ ap₂ (λ a b. encode_all a ++ encode_all b) empty all_kept) in
            absurd (omega arith)
        | inr (cp, more, e, wide) ↦ absurd (omega (arith, ap widths empty, char_width_bounds cp))
      ]
      | inr (cp, cps, e) ↦
          let (c, s, spelled) = first_of cp cps in
          let spells : encode_all r.kept ≡ c ∷ s = ap encode_all e ∙ spelled in
          let name : truncate u 20 ≡ c ∷ s = sym r.after ∙ spells in
          rw name (
            prefix-IsName signed u c s (encode_all r.cut) r.kept h valid
              (whole ∙ ap (λ t. t ++ encode_all r.cut) spells) scalars.0 spells r.within)
    ]

choose_name-IsName :
    (signed : Bool) (u : Bytes) → IsLine max_username_len u → IsName signed (choose_name signed u)
unfolding choose_name
choose_name-IsName signed u h = elim (Bool-cases (length u == 0)) [
  | inl empty ↦ rw empty (anonymous-IsName signed)
  | inr nonempty ↦ rw nonempty (elim (Bool-cases (is_valid_username signed u)) [
    | inr invalid ↦ rw invalid (anonymous-IsName signed)
    | inl valid ↦ rw valid (elim (Bool-cases (ltb 20 (strlen u))) [
      | inl long ↦ rw long (truncated-IsName signed u h (ground arith) valid)
      | inr short ↦ rw short (record { valid = valid; points = ground arith; line = h })
    ])
  ])
]

-- A session that gets past `read_username`, whatever bytes and pauses come, has a name that obeys the
-- rule for user names, with at most twenty code points, in well-formed UTF-8 without control bytes,
-- that fits the field with its NUL.
pub read_username-IsName :
    (available : Channel → ℕ) (signed : Bool) (c : Channel) (name : Bytes) (c' : Channel)
    → All IsReadByte c
    → read_username available signed c ≡ some (name, c')
    → IsName signed name
unfolding read_username
read_username-IsName available signed c name c' reads found =
    elim (Option-cases (name_loop available (suc (length c)) c [])) [
      | inl lost ↦ absurd (ground arith)
      | inr ((u, rest), typed) ↦
          let line =
            name_loop-IsLine available (suc (length c)) c [] u rest empty-IsLine reads typed in
          let chosen : choose_name signed u ≡ name = ground arith in
          rw (← chosen) (choose_name-IsName signed u line)
    ]
