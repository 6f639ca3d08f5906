-- ===== src/Json/Quote.antt =====
-- What `tnt_json_append_string` writes, `parse_json_string` reads back.
use Prim.Native.Nat.{bit_or}
use tnt.Base.{
  ℕ, zero, suc, ◌+◌, ◌-◌, ◌*◌, ◌/◌, ◌%◌, ◌^◌, ◌≤◌, ◌<◌, true, ◌||◌, [], ◌∷◌, ◌++◌, some, ◌≡◌, ◌∙◌,
  sym, ap, refl, ltb, ◌==◌, if◌then◌else◌, arith, length, Bytes, Bool-cases, inl, inr, ◌⊎◌, ◌≢◌,
  append_assoc, append-nil, length-append, IsCString, IsChar, char_at, drop,
}
use tnt.Base.Bits.{bit_or_sum}
use tnt.Common.Buffers.{append_fits}
use tnt.Json.{
  quote, escaped, hex_digit, append_escaped, append_string, hex_value, parse_hex, parse_hex4,
  codepoint_bytes, append_or_fail, append_decoded_codepoint, decoded, decode_escape, unescape,
  string_round, parse_string_from, parse_json_string,
}

-- The escapes of a whole text.
abbrev pub escaped_text : Bytes → Bytes
escaped_text [] = []
escaped_text (c ∷ cs) = escaped c ++ escaped_text cs

-- A text as a JSON string.
abbrev pub quoted : Bytes → Bytes
quoted text = b'"' ∷ (escaped_text text ++ quote)

escaped_nonempty : (c : ℕ) → 1 ≤ length (escaped c)
unfolding escaped
escaped_nonempty c = ground arith

append_escaped_fits :
    (size : ℕ) (out text : Bytes)
    → length out + length (escaped_text text) < size
    → append_escaped size out text ≡ out ++ escaped_text text
unfolding append_escaped
append_escaped_fits size out [] h = sym (append-nil out)
append_escaped_fits size out (c ∷ cs) h =
    let long = length-append (escaped c) (escaped_text cs) in
    let long' = length-append out (escaped c) in
    let room : ltb (length out) (size - 1) ≡ true = ground (arith, long, escaped_nonempty c) in
    rw (room, append_fits size out (escaped c) (omega (arith, long)))
      (append_escaped_fits size (out ++ escaped c) cs (omega (arith, long, long'))
        ∙ append_assoc out (escaped c) (escaped_text cs))

-- If it fits, a text is appended as one JSON string.
pub append_string_fits :
    (size : ℕ) (out text : Bytes)
    → length out + length (quoted text) < size
    → append_string size out text ≡ out ++ quoted text
unfolding append_string
append_string_fits size out text h =
    let long = length-append (escaped_text text) quote in
    let long' = length-append out quote in
    let long'' = length-append (out ++ quote) (escaped_text text) in
    rw
      (
        append_fits size out quote (omega (arith, long)),
        append_escaped_fits size (out ++ quote) text (omega (arith, long, long')),
      )
      (append_fits size ((out ++ quote) ++ escaped_text text) quote
          (omega (arith, long, long', long''))
        ∙ append_assoc (out ++ quote) (escaped_text text) quote
        ∙ append_assoc out quote (escaped_text text ++ quote))

hex_value_digit : (v : ℕ) → v < 16 → hex_value (hex_digit v) ≡ some v
unfolding hex_value
hex_value_digit v h = ground arith

-- One digit of the loop.
parse_hex_step :
    (rounds : ℕ) (p : Bytes) (cp v : ℕ)
    → hex_value (char_at p 0) ≡ some v
    → parse_hex (suc rounds) p cp ≡ parse_hex rounds (drop 1 p) (bit_or (cp * 2 ^ 4) v)
unfolding parse_hex
parse_hex_step rounds p cp v h = rw (h, parse_hex)

-- The four digits of a control character.
pub parse_control :
    (c : ℕ) (p : Bytes)
    → c < 0x20
    → parse_hex4 (b'0' ∷ b'0' ∷ hex_digit (c / 16) ∷ hex_digit (c % 16) ∷ p) ≡ some c
unfolding parse_hex4
parse_control c p h =
    let low = hex_digit (c % 16) ∷ p in
    let high = hex_digit (c / 16) ∷ low in
    parse_hex_step 3 (b'0' ∷ b'0' ∷ high) 0 0 (hex_value_digit 0 (omega arith))
    ∙ parse_hex_step 2 (b'0' ∷ high) 0 0 (hex_value_digit 0 (omega arith))
    ∙ parse_hex_step 1 high 0 (c / 16) (hex_value_digit (c / 16) (omega arith))
    ∙ parse_hex_step 0 low (bit_or (0 * 2 ^ 4) (c / 16)) (c % 16)
        (hex_value_digit (c % 16) (omega arith))
    ∙ (unfold parse_hex in ground (arith, bit_or_sum 4 0 (c / 16), bit_or_sum 4 (c / 16) (c % 16)))

-- The byte behind the backslash of a short escape.
abbrev pub Letter : ℕ → ℕ → Type 0
Letter c esc =
    ((esc ≡ c) × ((c ≡ b'"') ⊎ (c ≡ b'\\')))
    ⊎ ((esc ≡ b'b') × (c ≡ 8))
    ⊎ ((esc ≡ b'f') × (c ≡ 12))
    ⊎ ((esc ≡ b'n') × (c ≡ b'\n'))
    ⊎ ((esc ≡ b'r') × (c ≡ b'\r'))
    ⊎ ((esc ≡ b't') × (c ≡ b'\t'))

abbrev pub letter : ℕ → ℕ
letter c =
    if c == 8
    then b'b'
    else if c == 12
    then b'f'
    else if c == b'\n'
    then b'n'
    else if c == b'\r'
    then b'r'
    else if c == b'\t'
    then b't'
    else c

-- The three forms of `escaped`.
pub escaped_cases :
    (c : ℕ)
    → ((escaped c ≡ b'\\' ∷ letter c ∷ []) × Letter c (letter c))
      ⊎ ((escaped c ≡ b'\\' ∷ b'u' ∷ b'0' ∷ b'0' ∷ hex_digit (c / 16) ∷ hex_digit (c % 16) ∷ [])
          × (c < 0x20))
      ⊎ ((escaped c ≡ c ∷ []) × (0x20 ≤ c) × (c ≢ b'"') × (c ≢ b'\\'))
unfolding escaped
escaped_cases c = elim (Bool-cases (c == b'\\' || c == b'"')) [
  | inl stands ↦ inl (ground arith, inl (ground arith, ground arith))
  | inr other ↦ elim (Bool-cases (c == 8 || c == 12 || c == b'\n' || c == b'\r' || c == b'\t')) [
    | inl named ↦ inl (ground arith, inr (ground arith))
    | inr unnamed ↦ elim (Bool-cases (ltb c 0x20)) [
      | inl control ↦ inr (inl (ground arith, ground arith))
      | inr plain ↦ inr (inr (ground arith, ground arith, ground arith, ground arith))
    ]
  ]
]

-- A control character is escaped by its four digits or by a letter, a quote and a backslash by a
-- backslash. The round of the parser on the escape gives the character back.
module _ (size : ℕ) (out : Bytes) (c : ℕ) (p : Bytes) (char : IsChar c)
    (room : length out + 1 < size) where
  append_one : append_or_fail size out (c ∷ []) ≡ some (out ++ c ∷ [])
  unfolding append_or_fail
  append_one = ground arith

  append_control : c < 0x20 → append_decoded_codepoint size out c ≡ some (out ++ c ∷ [])
  unfolding append_decoded_codepoint codepoint_bytes
  append_control h = ground (arith, append_one)

  round_control :
      c < 0x20
      → string_round size out b'\\'
          (b'u' ∷ b'0' ∷ b'0' ∷ hex_digit (c / 16) ∷ hex_digit (c % 16) ∷ p)
        ≡ decoded (out ++ c ∷ []) p
  unfolding string_round unescape decode_escape
  round_control h = ground (arith, parse_control c p h, append_control h)

  round-Letter :
      (esc : ℕ) → Letter c esc → string_round size out b'\\' (esc ∷ p) ≡ decoded (out ++ c ∷ []) p
  unfolding string_round unescape
  round-Letter esc h = ground (arith, append_one)

  round_plain :
      0x20 ≤ c → c ≢ b'"' → c ≢ b'\\' → string_round size out c p ≡ decoded (out ++ c ∷ []) p
  unfolding string_round
  round_plain h q b = ground (arith, append_one)

parse_string_step :
    (fuel size : ℕ) (out : Bytes) (c : ℕ) (p out' rest : Bytes)
    → string_round size out c p ≡ decoded out' rest
    → parse_string_from (suc fuel) size out (c ∷ p) ≡ parse_string_from fuel size out' rest
unfolding parse_string_from
parse_string_step fuel size out c p out' rest h = rw (h, parse_string_from)

parse_escaped :
    (fuel size : ℕ) (out : Bytes) (c : ℕ) (p : Bytes)
    → IsChar c
    → length out + 1 < size
    → parse_string_from (suc fuel) size out (escaped c ++ p)
      ≡ parse_string_from fuel size (out ++ c ∷ []) p
parse_escaped fuel size out c p char room = elim (escaped_cases c) [
  | inl (form, l) ↦
      rw form
        (parse_string_step fuel size out _ _ _ _ (round-Letter size out c p char room (letter c) l))
  | inr (inl (form, h)) ↦
      rw form (parse_string_step fuel size out _ _ _ _ (round_control size out c p char room h))
  | inr (inr (form, h, q, b)) ↦
      rw form (parse_string_step fuel size out _ _ _ _ (round_plain size out c p char room h q b))
]

parse_string_closed :
    (fuel size : ℕ) (out rest : Bytes)
    → parse_string_from (suc fuel) size out (b'"' ∷ rest) ≡ some (out, rest)
unfolding parse_string_from string_round
parse_string_closed fuel size out rest = refl

parse_escaped_text :
    (text : Bytes) (fuel size : ℕ) (out rest : Bytes)
    → IsCString text
    → length text < fuel
    → length out + length text < size
    → parse_string_from fuel size out (escaped_text text ++ (b'"' ∷ rest))
      ≡ some (out ++ text, rest)
parse_escaped_text text zero size out rest chars f room = absurd (omega arith)
parse_escaped_text [] (suc fuel) size out rest chars f room =
    rw append-nil (parse_string_closed fuel size out rest)
parse_escaped_text (c ∷ cs) (suc fuel) size out rest chars f room =
    rw (append_assoc (escaped c) (escaped_text cs) (b'"' ∷ rest)) (
      parse_escaped fuel size out c (escaped_text cs ++ (b'"' ∷ rest)) chars.0 (omega arith)
      ∙ parse_escaped_text cs fuel size (out ++ c ∷ []) rest chars.1 (omega arith)
          (omega (arith, length-append out (c ∷ [])))
      ∙ ap (λ t. some (t, rest)) (append_assoc out (c ∷ []) cs))

pub length-le-escaped : (text : Bytes) → length text ≤ length (escaped_text text)
length-le-escaped [] = omega arith
length-le-escaped (c ∷ cs) =
    omega
      (arith, length-append (escaped c) (escaped_text cs), escaped_nonempty c, length-le-escaped cs)

-- The parser reads any text back from its JSON string, whatever follows, if the text fits into the
-- buffer with a NUL behind it.
pub parse_json_string-quoted :
    (size : ℕ) (text rest : Bytes)
    → IsCString text
    → length text < size
    → parse_json_string size (quoted text ++ rest) ≡ some (text, rest)
unfolding parse_json_string
parse_json_string-quoted size text rest chars room =
    let enough : length text < length (quoted text ++ rest) = omega (
      arith,
      length-append (quoted text) rest,
      length-append (escaped_text text) quote,
      length-le-escaped text,
    ) in
    ground (
      arith,
      append_assoc (escaped_text text) quote rest,
      parse_escaped_text text (length (quoted text ++ rest)) size [] rest chars enough
          (omega arith),
    )

-- What `tnt_json_append_string` writes into a buffer that has room, `parse_json_string` reads back
-- as the same text, for every text without NUL.
pub parse_json_string-append_string :
    (size size' : ℕ) (text : Bytes)
    → IsCString text
    → length (quoted text) < size
    → length text < size'
    → parse_json_string size' (append_string size [] text) ≡ some (text, [])
parse_json_string-append_string size size' text chars fits room =
    rw (append_string_fits size [] text (omega arith)) (
      ap (parse_json_string size') (sym (append-nil (quoted text)))
      ∙ parse_json_string-quoted size' text [] chars room)
