-- ===== src/Utf8.antt =====
-- src/utf8.c: UTF-8 byte sequences, code points, display widths and the loops over strings.
-- A `char *` is the list of the bytes before its NUL (`Base.Bytes`), and a pointer into it is what
-- is left of that list. `decode` returns the code point with what it stores in `*bytes_read`. A
-- loop over a string takes fuel; the callers start it with the length, and every round eats at
-- least one byte.
pub mod Spec
pub mod Lead
mod Combine
pub mod Sequence
pub mod Valid
pub mod Text
pub mod Measure
pub mod Cut
pub mod Backspace
pub mod Erase
pub mod Ansi
mod Tests
use Prim.Native.Nat.{bit_and, bit_or}
use tnt.Base.{
  ℕ, zero, suc, ◌+◌, ◌-◌, ◌*◌, ◌^◌, Bool, true, false, not, ◌&&◌, ◌||◌, List, [], ◌∷◌, ◌++◌, Option,
  none, some, ltb, leb, ◌==◌, if◌then◌else◌, length, take, drop, Bytes, char_at,
}

-- `x << k` on values that stay far below 2 ^ 32
infixl 72 ◌<<<◌
abbrev pub ◌<<<◌ : ℕ → ℕ → ℕ
x <<< k = x * 2 ^ k

unfoldable pub byte_length : ℕ → ℕ
byte_length first_byte =
    if bit_and first_byte 0x80 == 0
    then 1
    else if bit_and first_byte 0xE0 == 0xC0
    then 2
    else if bit_and first_byte 0xF0 == 0xE0
    then 3
    else if bit_and first_byte 0xF8 == 0xF0
    then 4
    else 1

-- `(b & 0xC0) == 0x80`
unfoldable pub is_continuation : ℕ → Bool
is_continuation b = bit_and b 0xC0 == 0x80

-- The code point that `len` bytes hold; the two `switch` statements of the file.
pub combine : ℕ → Bytes → ℕ
combine len s =
    if len == 1
    then char_at s 0
    else if len == 2
    then bit_or (bit_and (char_at s 0) 0x1F <<< 6) (bit_and (char_at s 1) 0x3F)
    else if len == 3
    then bit_or (bit_or (bit_and (char_at s 0) 0x0F <<< 12) (bit_and (char_at s 1) 0x3F <<< 6))
        (bit_and (char_at s 2) 0x3F)
    else if len == 4
    then bit_or
        (bit_or (bit_or (bit_and (char_at s 0) 0x07 <<< 18) (bit_and (char_at s 1) 0x3F <<< 12))
          (bit_and (char_at s 2) 0x3F <<< 6))
        (bit_and (char_at s 3) 0x3F)
    else 0

-- The loop `for (i = 1; i < len; i++)` of `utf8_decode`: no byte is NUL or no continuation byte.
decode_continues : ℕ → ℕ → Bytes → Bool
decode_continues zero i s = true
decode_continues (suc rounds) i s =
    not (char_at s i == 0 || not (is_continuation (char_at s i)))
    && decode_continues rounds (i + 1) s

decode_at : ℕ → Bytes → ℕ × ℕ
decode_at len s = if decode_continues (len - 1) 1 s then (combine len s, len) else (char_at s 0, 1)

unfoldable pub decode : Bytes → ℕ × ℕ
unfolding decode_continues decode_at
decode s =
    let len = byte_length (char_at s 0) in decode_at (if ltb len 1 || ltb 4 len then 1 else len) s

abbrev within : ℕ → ℕ → ℕ → Bool
within lo hi c = leb lo c && leb c hi

pub char_width : ℕ → ℕ
char_width codepoint =
    if ltb codepoint 0x80
    then 1
    else if within 0x4E00 0x9FFF codepoint
        || within 0x3400 0x4DBF codepoint
        || within 0x20000 0x2A6DF codepoint
        || within 0x2A700 0x2B73F codepoint
        || within 0x2B740 0x2B81F codepoint
        || within 0x2B820 0x2CEAF codepoint
        || within 0xF900 0xFAFF codepoint
        || within 0x2F800 0x2FA1F codepoint
    then 2
    else if within 0xAC00 0xD7AF codepoint
    then 2
    else if within 0x3040 0x309F codepoint || within 0x30A0 0x30FF codepoint
    then 2
    else if within 0xFF00 0xFFEF codepoint
    then 2
    else 1

-- `while (*p != '\0')` of `utf8_string_width`
string_width_from : ℕ → Bytes → ℕ → ℕ
string_width_from zero p width = width
string_width_from (suc fuel) [] width = width
string_width_from (suc fuel) (b ∷ p) width =
    let (codepoint, bytes_read) = decode (b ∷ p) in
    string_width_from fuel (drop bytes_read (b ∷ p)) (width + char_width codepoint)

pub string_width : Bytes → ℕ
string_width str = string_width_from (length str) str 0

unfoldable pub strlen_from : ℕ → Bytes → ℕ → ℕ
strlen_from zero p count = count
strlen_from (suc fuel) [] count = count
strlen_from (suc fuel) (b ∷ p) count =
    let (codepoint, bytes_read) = decode (b ∷ p) in
    strlen_from fuel (drop bytes_read (b ∷ p)) (count + 1)

unfoldable pub strlen : Bytes → ℕ
strlen str = strlen_from (length str) str 0

-- `utf8_truncate` ends the string at `last_valid`: the result is how many bytes stay.
truncate_at : ℕ → ℕ → Bytes → ℕ → ℕ → ℕ
truncate_at zero max_width p width last_valid = last_valid
truncate_at (suc fuel) max_width [] width last_valid = last_valid
truncate_at (suc fuel) max_width (b ∷ p) width last_valid =
    let (codepoint, bytes_read) = decode (b ∷ p) in
    let more =
      truncate_at fuel max_width (drop bytes_read (b ∷ p)) (width + char_width codepoint)
        (last_valid + bytes_read) in
    if ltb max_width (width + char_width codepoint) then last_valid else more

pub truncate : Bytes → ℕ → Bytes
truncate str max_width = take (truncate_at (length str) max_width str 0 0) str

-- `while (i > 0 && (str[i] & 0xC0) == 0x80) i--;`
char_start : Bytes → ℕ → ℕ
char_start str zero = 0
char_start str (suc i) =
    let back = char_start str i in if is_continuation (char_at str (suc i)) then back else suc i

pub remove_last_char : Bytes → Bytes
unfolding char_start
remove_last_char str = if length str == 0 then str else take (char_start str (length str - 1)) str

-- `while (i > 0 && str[i - 1] == ' ') i--;` and the loop for `!= ' '`; the flag picks the test.
skip_back : Bool → Bytes → ℕ → ℕ
skip_back space str zero = 0
skip_back space str (suc i) =
    let back = skip_back space str i in
    let stands = char_at str i == b' ' in
    if (if space then stands else not stands) then back else suc i

pub remove_last_word : Bytes → Bytes
unfolding skip_back
remove_last_word str =
    if length str == 0
    then str
    else take (skip_back false str (skip_back true str (length str))) str

-- `for (i = 1; i < len; i++)` of `utf8_is_valid_sequence`
valid_continues : ℕ → ℕ → Bytes → Bool
valid_continues zero i b = true
valid_continues (suc rounds) i b = is_continuation (char_at b i) && valid_continues rounds (i + 1) b

-- The range tests behind the second `switch`.
in_range : ℕ → ℕ → Bool
in_range len codepoint =
    if len == 1
    then not (codepoint == 0 || ltb 0x7F codepoint)
    else if len == 2
    then not (ltb codepoint 0x80 || ltb 0x7FF codepoint)
    else if len == 3
    then not (ltb codepoint 0x800 || ltb 0xFFFF codepoint) && not (within 0xD800 0xDFFF codepoint)
    else not (ltb codepoint 0x10000 || ltb 0x10FFFF codepoint)

-- `bytes` may hold more than `len` bytes; the caller's pointer is never null.
unfoldable pub is_valid_sequence : Bytes → ℕ → Bool
unfolding valid_continues in_range
is_valid_sequence bytes len =
    if len == 0 || ltb 4 len
    then false
    else if not (byte_length (char_at bytes 0) == len)
    then false
    else if not (valid_continues (len - 1) 1 bytes)
    then false
    else in_range len (combine len bytes)

-- `for (i = 1; i < len; i++) if (p[i] == '\0') return false;`
no_nul : ℕ → ℕ → Bytes → Bool
no_nul zero i p = true
no_nul (suc rounds) i p = not (char_at p i == 0) && no_nul rounds (i + 1) p

valid_from : ℕ → Bytes → Bool
valid_from zero p = true
valid_from (suc fuel) [] = true
valid_from (suc fuel) (b ∷ p) =
    let len = byte_length b in
    let more = valid_from fuel (drop len (b ∷ p)) in
    if ltb len 1 || ltb 4 len
    then false
    else if not (no_nul (len - 1) 1 (b ∷ p))
    then false
    else if not (is_valid_sequence (b ∷ p) len)
    then false
    else more

pub is_valid_string : Bytes → Bool
unfolding valid_from no_nul
is_valid_string str = valid_from (length str) str
