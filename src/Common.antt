-- ===== src/Common.antt =====
-- src/common.c: the bounded buffers, the rule for user names, and the bounds of a terminal.
-- A buffer of `size` bytes is the list of the `*pos` bytes that it holds; a NUL stands behind them.
-- The pointers are never null here.
pub mod Buffers
pub mod Names
mod Tests
use tnt.Base.{
  ℕ, ◌+◌, ◌-◌, ◌≤◌, ◌<◌, Bool, true, false, not, ◌&&◌, ◌||◌, [], ◌∷◌, ◌++◌, ltb, leb, ◌==◌,
  if◌then◌else◌, length, take, Bytes, char_at, contains, codes,
}
use tnt.Base.Int.{ℤ, pos, negsuc}

pub buffer_append_bytes : ℕ → Bytes → Bytes → Bytes
buffer_append_bytes size out bytes =
    if length bytes == 0 || size == 0 || leb (size - 1) (length out)
    then out
    else out ++ take (size - 1 - length out) bytes

-- `illegal_chars`
abbrev pub illegal_chars : Bytes
illegal_chars = codes "|;&$`\n\r<>(){}[]'\"\\"

-- `username[i] < 32`, on a `char` that the compiler may take as signed (x86-64) or not (ARM): a
-- signed one is negative from 0x80 on.
abbrev pub below_space : Bool → ℕ → Bool
below_space signed c = ltb c 32 || signed && leb 0x80 c

-- The loop of `is_valid_username`. `strchr` never meets the NUL of the name, since the loop ends
-- before it.
unfoldable pub valid_chars : Bool → Bytes → Bool
valid_chars signed [] = true
valid_chars signed (c ∷ cs) =
    not (below_space signed c && not (c == 9))
    && not (contains c illegal_chars)
    && valid_chars signed cs

unfoldable pub is_valid_username : Bool → Bytes → Bool
is_valid_username signed [] = false
is_valid_username signed (c ∷ cs) =
    not (c == b' ' || c == b'.' || c == b'-') && valid_chars signed (c ∷ cs)

-- `int` arguments, by their values
abbrev pub out_of_range : ℕ → ℤ → Bool
out_of_range top (pos n) = n == 0 || ltb top n
out_of_range top (negsuc n) = true

pub sanitize_terminal_size : ℤ → ℤ → ℤ × ℤ
sanitize_terminal_size width height = (
  (if out_of_range 500 width then pos 80 else width),
  (if out_of_range 200 height then pos 24 else height),
)
