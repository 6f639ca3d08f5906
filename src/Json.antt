-- ===== src/Json.antt =====
-- src/json_text.c: JSON strings written into a bounded buffer, and a string field read from an
-- object. A cursor is what is left of the NUL-terminated text. A parser that fails gives `none`: the
-- callers throw away what it had written by then. Loops take fuel, started with the length.
pub mod Encode
pub mod Quote
pub mod Field
mod Tests
use Prim.Native.Nat.{bit_and, bit_or}
use tnt.Base.{
  ℕ, zero, suc, ◌+◌, ◌-◌, ◌*◌, ◌/◌, ◌^◌, ◌%◌, Bool, true, false, not, ◌&&◌, ◌||◌, [], ◌∷◌, ◌++◌,
  Option, none, some, ltb, leb, ◌==◌, if◌then◌else◌, length, take, drop, Bytes, char_at, equal,
}
use tnt.Common.{buffer_append_bytes}

abbrev pub quote : Bytes
quote = b'"' ∷ []

-- The digit of `%04x`.
abbrev pub hex_digit : ℕ → ℕ
hex_digit v = if ltb v 10 then b'0' + v else b'a' + (v - 10)

-- What `tnt_json_append_string` appends for the byte `c`.
unfoldable pub escaped : ℕ → Bytes
escaped c =
    if c == b'\\'
    then b'\\' ∷ b'\\' ∷ []
    else if c == b'"'
    then b'\\' ∷ b'"' ∷ []
    else if c == 8
    then b'\\' ∷ b'b' ∷ []
    else if c == 12
    then b'\\' ∷ b'f' ∷ []
    else if c == b'\n'
    then b'\\' ∷ b'n' ∷ []
    else if c == b'\r'
    then b'\\' ∷ b'r' ∷ []
    else if c == b'\t'
    then b'\\' ∷ b't' ∷ []
    else if ltb c 0x20
    then b'\\' ∷ b'u' ∷ b'0' ∷ b'0' ∷ hex_digit (c / 16) ∷ hex_digit (c % 16) ∷ []
    else c ∷ []

-- `while (*p && pos && *pos < buf_size - 1)`
append_escaped : ℕ → Bytes → Bytes → Bytes
append_escaped size out [] = out
append_escaped size out (c ∷ p) =
    let more = append_escaped size (buffer_append_bytes size out (escaped c)) p in
    if ltb (length out) (size - 1) then more else out

-- `tnt_json_append_string`
pub append_string : ℕ → Bytes → Bytes → Bytes
unfolding append_escaped
append_string size out text =
    buffer_append_bytes size (append_escaped size (buffer_append_bytes size out quote) text) quote

-- `isspace` in the C locale
abbrev pub is_space : ℕ → Bool
is_space c = c == b' ' || leb 9 c && leb c 13

pub skip_ws : Bytes → Bytes
skip_ws [] = []
skip_ws (c ∷ p) = if is_space c then skip_ws p else c ∷ p

-- `none` is -1.
unfoldable pub hex_value : ℕ → Option ℕ
hex_value c =
    if leb b'0' c && leb c b'9'
    then some (c - b'0')
    else if leb b'a' c && leb c b'f'
    then some (c - b'a' + 10)
    else if leb b'A' c && leb c b'F'
    then some (c - b'A' + 10)
    else none

-- The loop of `parse_hex4` with `rounds` digits left; `cp` has at most 16 bits.
parse_hex : ℕ → Bytes → ℕ → Option ℕ
parse_hex zero p cp = some cp
parse_hex (suc rounds) p cp = elim (hex_value (char_at p 0)) [
  | none ↦ none
  | some v ↦ parse_hex rounds (drop 1 p) (bit_or (cp * 2 ^ 4) v)
]

pub parse_hex4 : Bytes → Option ℕ
unfolding parse_hex
parse_hex4 p = parse_hex 4 p 0

-- The bytes that `append_decoded_codepoint` makes.
pub codepoint_bytes : ℕ → Bytes
codepoint_bytes cp =
    if leb cp 0x7F
    then cp ∷ []
    else if leb cp 0x7FF
    then bit_or 0xC0 (cp / 2 ^ 6) ∷ bit_or 0x80 (bit_and cp 0x3F) ∷ []
    else if leb cp 0xFFFF
    then bit_or 0xE0 (cp / 2 ^ 12)
      ∷ bit_or 0x80 (bit_and (cp / 2 ^ 6) 0x3F)
      ∷ bit_or 0x80 (bit_and cp 0x3F)
      ∷ []
    else bit_or 0xF0 (cp / 2 ^ 18)
      ∷ bit_or 0x80 (bit_and (cp / 2 ^ 12) 0x3F)
      ∷ bit_or 0x80 (bit_and (cp / 2 ^ 6) 0x3F)
      ∷ bit_or 0x80 (bit_and cp 0x3F)
      ∷ []

-- `append_byte`, and the end of `append_decoded_codepoint`: the bytes and a NUL must fit.
pub append_or_fail : ℕ → Bytes → Bytes → Option Bytes
append_or_fail size out bytes =
    if leb size (length out + length bytes) then none else some (out ++ bytes)

pub append_decoded_codepoint : ℕ → Bytes → ℕ → Option Bytes
append_decoded_codepoint size out cp =
    if size == 0 || cp == 0 || ltb 0x10FFFF cp || leb 0xD800 cp && leb cp 0xDFFF
    then none
    else append_or_fail size out (codepoint_bytes cp)

-- What a round of `parse_json_string` does: it ends the string, appends and goes on, or fails.
pub data Piece : Type 0 where
  closed : Bytes → Piece
  decoded : Bytes → Bytes → Piece
  refused : Piece

-- Appends, and goes on at `p`.
abbrev go_on : Option Bytes → Bytes → Piece
go_on none p = refused
go_on (some out) p = decoded out p

-- `case 'u'`, behind the four digits: `p` is the text behind them.
decode_escape : ℕ → Bytes → ℕ → Bytes → Piece
decode_escape size out cp p =
    if leb 0xD800 cp && leb cp 0xDBFF
    then (if not (char_at p 0 == b'\\') || not (char_at p 1 == b'u')
        then refused
        else elim (parse_hex4 (drop 2 p)) [
          | none ↦ refused
          | some low ↦
              if ltb low 0xDC00 || ltb 0xDFFF low
              then refused
              else go_on
                  (append_decoded_codepoint size out
                    (0x10000 + (cp - 0xD800) * 2 ^ 10 + (low - 0xDC00)))
                  (drop 6 p)
        ])
    else if leb 0xDC00 cp && leb cp 0xDFFF
    then refused
    else go_on (append_decoded_codepoint size out cp) p

-- The `switch` on the byte behind a backslash.
unescape : ℕ → Bytes → ℕ → Bytes → Piece
unescape size out esc p =
    if esc == b'"' || esc == b'\\' || esc == b'/'
    then go_on (append_or_fail size out (esc ∷ [])) p
    else if esc == b'b'
    then go_on (append_or_fail size out (8 ∷ [])) p
    else if esc == b'f'
    then go_on (append_or_fail size out (12 ∷ [])) p
    else if esc == b'n'
    then go_on (append_or_fail size out (b'\n' ∷ [])) p
    else if esc == b'r'
    then go_on (append_or_fail size out (b'\r' ∷ [])) p
    else if esc == b't'
    then go_on (append_or_fail size out (b'\t' ∷ [])) p
    else if esc == b'u'
    then elim (parse_hex4 p) [ none ↦ refused | some cp ↦ decode_escape size out cp (drop 4 p) ]
    else refused

-- One round of the loop of `parse_json_string`, on the byte `c` with `p` behind it.
string_round : ℕ → Bytes → ℕ → Bytes → Piece
string_round size out c p =
    if c == b'"'
    then closed p
    else if ltb c 0x20
    then refused
    else if not (c == b'\\')
    then go_on (append_or_fail size out (c ∷ [])) p
    else unescape size out (char_at p 0) (drop 1 p)

parse_string_from : ℕ → ℕ → Bytes → Bytes → Option (Bytes × Bytes)
parse_string_from zero size out p = none
parse_string_from (suc fuel) size out [] = none
parse_string_from (suc fuel) size out (c ∷ p) = elim (string_round size out c p) [
  | closed rest ↦ some (out, rest)
  | decoded out' rest ↦ parse_string_from fuel size out' rest
  | refused ↦ none
]

-- `parse_json_string`: the string, and the cursor behind it.
pub parse_json_string : ℕ → Bytes → Option (Bytes × Bytes)
parse_json_string size cursor =
    if not (char_at cursor 0 == b'"') || size == 0
    then none
    else parse_string_from (length cursor) size [] (drop 1 cursor)
