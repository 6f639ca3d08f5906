-- ===== src/Common/Names.antt =====
-- src/common.c: the rule for user names.
use tnt.Base.{
  length, char_at, Bool, ◌++◌, codes, ℕ, ◌≤◌, ◌<◌, true, false, not, ◌&&◌, [], ◌∷◌, ◌≡◌, refl, ◌≢◌,
  ◌⊎◌, ◌↔◌, ◌==◌, Bytes, contains, All, arith,
}
use tnt.Base.Int.{ℤ, pos, ◌≤ℤ◌}
use tnt.Common.{illegal_chars, below_space, valid_chars, is_valid_username, sanitize_terminal_size}

-- A byte that may stand in a name, by its code: a tab; ` !`, `#`, `%`, `*` to `:`, `=`, `?` to `Z`,
-- `^_`, `a` to `z`, and all from `~` on.
abbrev pub IsNameByte : ℕ → Type 0
IsNameByte c =
    (c ≡ 9)
    ⊎ ((32 ≤ c) × (c ≤ 33))
    ⊎ (c ≡ 35)
    ⊎ (c ≡ 37)
    ⊎ ((42 ≤ c) × (c ≤ 58))
    ⊎ (c ≡ 61)
    ⊎ ((63 ≤ c) × (c ≤ 90))
    ⊎ ((94 ≤ c) × (c ≤ 95))
    ⊎ ((97 ≤ c) × (c ≤ 122))
    ⊎ (126 ≤ c)

IsNameByte-iff :
    (c : ℕ)
    → (not (below_space false c && not (c == 9)) && not (contains c illegal_chars) ≡ true)
      ↔ IsNameByte c
unfolding contains
IsNameByte-iff c = (λ h. ground arith, λ h. ground arith)

valid_chars_iff : (s : Bytes) → (valid_chars false s ≡ true) ↔ All IsNameByte s
unfolding valid_chars
valid_chars_iff [] = (λ h. tt, λ h. refl)
valid_chars_iff (c ∷ cs) =
    let ih = valid_chars_iff cs in
    let here = IsNameByte-iff c in
    (λ h. (here.0 (ground arith), ih.0 (ground arith)), λ h. ground (arith, here.1 h.0, ih.1 h.1))

-- Where `char` is unsigned, a name is accepted exactly when it is not empty, starts with no space,
-- dot or dash, and each of its bytes is a tab, a letter, a digit, one of a space and
-- `! # % * + , - . / : = ? @ ^ _ ~`, or 127 and above.
pub is_valid_username_iff :
    (s : Bytes)
    → (is_valid_username false s ≡ true) ↔ (
        (0 < length s)
        × (char_at s 0 ≢ 32)
        × (char_at s 0 ≢ 46)
        × (char_at s 0 ≢ 45)
        × All IsNameByte s)
unfolding is_valid_username
is_valid_username_iff [] = (λ h. absurd (cc), λ h. absurd (omega arith))
is_valid_username_iff (c ∷ cs) =
    let chars = valid_chars_iff (c ∷ cs) in
    (
      λ h. (omega arith, ground arith, ground arith, ground arith, chars.0 (ground arith)),
      λ h. ground (arith, chars.1 h.4),
    )

abbrev pub IsAscii : ℕ → Type 0
IsAscii c = c < 0x80

valid_chars_signed :
    (s : Bytes) → (valid_chars true s ≡ true) ↔ ((valid_chars false s ≡ true) × All IsAscii s)
unfolding valid_chars
valid_chars_signed [] = (λ h. (refl, tt), λ h. refl)
valid_chars_signed (c ∷ cs) =
    let ih = valid_chars_signed cs in
    (
      λ h. let r = ih.0 (ground arith) in (ground (arith, r.0), (ground arith, r.1)),
      λ h. ground (arith, ih.1 (ground arith, h.1.1)),
    )

-- Where `char` is signed, the names that are accepted are those of the unsigned case whose bytes are
-- all ASCII: no name with a byte from 0x80 on passes.
pub is_valid_username_signed :
    (s : Bytes)
    → (is_valid_username true s ≡ true) ↔ ((is_valid_username false s ≡ true) × All IsAscii s)
unfolding is_valid_username
is_valid_username_signed [] = (λ h. cc, λ h. cc)
is_valid_username_signed (c ∷ cs) =
    let chars = valid_chars_signed (c ∷ cs) in
    (
      λ h. let r = chars.0 (ground arith) in (ground (arith, r.0), r.1),
      λ h. ground (arith, chars.1 (ground arith, h.1)),
    )

-- The terminal size is always within 1 to 500 columns and 1 to 200 rows, and a size within these
-- bounds is kept.
pub sanitize_bounds :
    (width height : ℤ)
    → let (w, h) = sanitize_terminal_size width height in
      (pos 1 ≤ℤ w)
      × (w ≤ℤ pos 500)
      × (pos 1 ≤ℤ h)
      × (h ≤ℤ pos 200)
      × ((w ≡ width) ⊎ (width ≤ℤ pos 0) ⊎ (pos 501 ≤ℤ width))
      × ((h ≡ height) ⊎ (height ≤ℤ pos 0) ⊎ (pos 201 ≤ℤ height))
unfolding sanitize_terminal_size
sanitize_bounds width height =
    (ground arith, ground arith, ground arith, ground arith, ground arith, ground arith)

valid_chars-append :
    (signed : Bool) (s t : Bytes) → valid_chars signed (s ++ t) ≡ true → valid_chars signed s ≡ true
unfolding valid_chars
valid_chars-append signed [] t h = refl
valid_chars-append signed (c ∷ s) t h = ground (arith, valid_chars-append signed s t)

-- The start of a valid name is one.
pub is_valid_username-append :
    (signed : Bool) (c : ℕ) (s t : Bytes)
    → is_valid_username signed (c ∷ (s ++ t)) ≡ true
    → is_valid_username signed (c ∷ s) ≡ true
unfolding is_valid_username
is_valid_username-append signed c s t h = ground (arith, valid_chars-append signed (c ∷ s) t)

pub anonymous_valid : (signed : Bool) → is_valid_username signed (codes "anonymous") ≡ true
unfolding is_valid_username valid_chars contains
anonymous_valid true = refl
anonymous_valid false = refl
