-- ===== src/Common/Tests.antt =====
-- The theorems on src/common.c at concrete texts.
use tnt.Base.{length, char_at, ◌<◌, ℕ, true, false, [], ◌∷◌, All, ◌≡◌, ◌≢◌, ◌↔◌}
use tnt.Common.{is_valid_username}
use tnt.Common.Names.{IsNameByte, IsAscii, is_valid_username_iff, is_valid_username_signed}

abbrev letter : ℕ
letter = b'a'

is_valid_username_iff_example : (is_valid_username false (letter ∷ 0xC3 ∷ 0xA9 ∷ []) ≡ true) ↔ (
    (0 < length (letter ∷ 0xC3 ∷ 0xA9 ∷ []))
    × (char_at (letter ∷ 0xC3 ∷ 0xA9 ∷ []) 0 ≢ 32)
    × (char_at (letter ∷ 0xC3 ∷ 0xA9 ∷ []) 0 ≢ 46)
    × (char_at (letter ∷ 0xC3 ∷ 0xA9 ∷ []) 0 ≢ 45)
    × All IsNameByte (letter ∷ 0xC3 ∷ 0xA9 ∷ []))
is_valid_username_iff_example = is_valid_username_iff (letter ∷ 0xC3 ∷ 0xA9 ∷ [])

is_valid_username_signed_example :
    (is_valid_username true (0xC3 ∷ 0xA9 ∷ []) ≡ true)
    ↔ ((is_valid_username false (0xC3 ∷ 0xA9 ∷ []) ≡ true) × All IsAscii (0xC3 ∷ 0xA9 ∷ []))
is_valid_username_signed_example = is_valid_username_signed (0xC3 ∷ 0xA9 ∷ [])
