-- ===== src/Utf8/Tests.antt =====
-- Runs of src/utf8.c, and the theorems about it at concrete texts.
use tnt.Base.{ℕ, true, false, ◌≡◌, ◌↔◌, refl, List, [], ◌∷◌, ◌++◌, arith, Bytes, codes, take, drop}
use tnt.Utf8.{
  byte_length, is_continuation, combine, decode, char_width, string_width, string_width_from,
  strlen, strlen_from, truncate, truncate_at, remove_last_char, remove_last_word, is_valid_sequence,
  is_valid_string,
}
use tnt.Utf8.Spec.{encoding, encoded_length, IsUtf8}
use tnt.Utf8.Sequence.{decode-encoding}
use tnt.Utf8.Valid.{Spells, valid_sequence_iff}
use tnt.Utf8.Text.{is_valid_string_iff}
use tnt.Utf8.Cut.{Truncates, truncate-Truncates}

-- "a", "é", "中" and U+1F600
abbrev points : List ℕ
points = 0x61 ∷ 0xE9 ∷ 0x4E2D ∷ 0x1F600 ∷ []

abbrev text : Bytes
text = 0x61 ∷ 0xC3 ∷ 0xA9 ∷ 0xE4 ∷ 0xB8 ∷ 0xAD ∷ 0xF0 ∷ 0x9F ∷ 0x98 ∷ 0x80 ∷ []

text-IsUtf8 : IsUtf8 text
text-IsUtf8 = record { points = points; scalars = omega arith; spells = refl }

runs :
    (decode (drop 1 text) ≡ (0xE9, 2))
    × (strlen text ≡ 4)
    × (string_width text ≡ 5)
    × (truncate text 3 ≡ 0x61 ∷ 0xC3 ∷ 0xA9 ∷ [])
    × (remove_last_char text ≡ take 6 text)
    × (is_valid_string text ≡ true)
unfolding decode byte_length is_continuation combine strlen strlen_from string_width
    string_width_from char_width truncate truncate_at remove_last_char is_valid_string
    is_valid_sequence
runs = (refl, refl, refl, refl, refl, refl)

-- An overlong form, a surrogate and a stray continuation byte.
refusals :
    (is_valid_sequence (0xC0 ∷ 0x80 ∷ []) 2 ≡ false)
    × (is_valid_sequence (0xED ∷ 0xA0 ∷ 0x80 ∷ []) 3 ≡ false)
    × (is_valid_string (0x61 ∷ 0x80 ∷ []) ≡ false)
unfolding is_valid_string is_valid_sequence byte_length is_continuation combine
refusals = (refl, refl, refl)

words : remove_last_word (codes "send the  file ") ≡ codes "send the  "
unfolding remove_last_word
words = refl

decode-encoding_example : decode (encoding 0x4E2D ++ text) ≡ (0x4E2D, encoded_length 0x4E2D)
decode-encoding_example = decode-encoding 0x4E2D text (omega arith)

valid_sequence_iff_example : (is_valid_sequence text 1 ≡ true) ↔ Spells 1 text
valid_sequence_iff_example = valid_sequence_iff text 1 (omega arith)

is_valid_string_iff_example : (is_valid_string text ≡ true) ↔ IsUtf8 text
is_valid_string_iff_example = is_valid_string_iff text (omega arith)

truncate-Truncates_example : Truncates text 3 (truncate text 3)
truncate-Truncates_example = truncate-Truncates text 3 text-IsUtf8
