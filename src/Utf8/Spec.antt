-- ===== src/Utf8/Spec.antt =====
-- UTF-8 as RFC 3629 has it, by division and remainder, for what src/utf8.c is to compute: NUL is
-- left out, since it ends a C string.
use tnt.Base.{
  ℕ, ◌+◌, ◌/◌, ◌%◌, ◌≤◌, ◌<◌, ◌⊎◌, List, [], ◌∷◌, ◌++◌, ltb, if◌then◌else◌, Bytes, All, ◌≡◌,
}

-- A code point that is not NUL, no surrogate, and at most U+10FFFF.
abbrev pub IsScalar : ℕ → Type 0
IsScalar cp = (1 ≤ cp) × (cp < 0x110000) × ((cp < 0xD800) ⊎ (0xE000 ≤ cp))

-- The number of bytes that a code point takes.
abbrev pub encoded_length : ℕ → ℕ
encoded_length cp =
    if ltb cp 0x80 then 1 else if ltb cp 0x800 then 2 else if ltb cp 0x10000 then 3 else 4

abbrev tail_byte : ℕ → ℕ
tail_byte x = 0x80 + x % 64

abbrev pub encoding : ℕ → Bytes
encoding cp =
    if ltb cp 0x80
    then cp ∷ []
    else if ltb cp 0x800
    then (0xC0 + cp / 64) ∷ tail_byte cp ∷ []
    else if ltb cp 0x10000
    then (0xE0 + cp / 4096) ∷ tail_byte (cp / 64) ∷ tail_byte cp ∷ []
    else (0xF0 + cp / 262144) ∷ tail_byte (cp / 4096) ∷ tail_byte (cp / 64) ∷ tail_byte cp ∷ []

-- The text of a list of code points.
abbrev pub encode_all : List ℕ → Bytes
encode_all [] = []
encode_all (cp ∷ cps) = encoding cp ++ encode_all cps

-- The string is well-formed UTF-8: it is the text of code points that are all scalar values.
pub record IsUtf8 (s : Bytes) : Type 0 where
  pub points : List ℕ
  pub scalars : All IsScalar points
  pub spells : encode_all points ≡ s
