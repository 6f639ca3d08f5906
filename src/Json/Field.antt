-- ===== src/Json/Field.antt =====
-- The rest of src/json_text.c: `skip_json_string`, `skip_json_value` and
-- `tnt_json_get_string_field`, which looks for the string value of a key in an object.
pub mod Skip
pub mod Object
use tnt.Base.{
  ℕ, zero, suc, ◌+◌, ◌-◌, Bool, not, ◌&&◌, ◌||◌, [], ◌∷◌, Option, none, some, ltb, ◌==◌,
  if◌then◌else◌, ◌>>=◌, length, drop, Bytes, char_at, equal,
}
use tnt.Json.{skip_ws, parse_hex4, parse_json_string}

-- The loop of `skip_json_string`, behind the opening quote.
skip_string_from : ℕ → Bytes → Option Bytes
skip_string_from zero p = none
skip_string_from (suc fuel) [] = none
skip_string_from (suc fuel) (c ∷ p) =
    let escape = char_at p 0 in
    let behind = drop (if escape == b'u' then 5 else 1) p in
    let next = if c == b'\\' then behind else p in
    let rest = skip_string_from fuel next in
    if c == b'"'
    then some p
    else if ltb c 0x20
    then none
    else if c == b'\\' && escape == b'u'
    then elim (parse_hex4 (drop 1 p)) [ none ↦ none | some ignored ↦ rest ]
    else if c == b'\\' && escape == 0
    then none
    else rest

-- `skip_json_string`: the cursor behind the string.
pub skip_json_string : Bytes → Option Bytes
unfolding skip_string_from
skip_json_string cursor =
    if char_at cursor 0 == b'"' then skip_string_from (length cursor) (drop 1 cursor) else none

abbrev opens : ℕ → Bool
opens c = c == b'{' || c == b'['

abbrev closes : ℕ → Bool
closes c = c == b'}' || c == b']'

-- The rest of a round of the `do` loop, on the byte behind a string if there was one: the depth and
-- the cursor, or `none` at the end of the text.
nest : ℕ → Bytes → Option (ℕ × Bytes)
nest depth [] = none
nest depth (c ∷ p) =
    if opens c
    then some (depth + 1, p)
    else if closes c
    then some (depth - 1, p)
    else some (depth, p)

-- `do ... while (depth > 0)`. The first byte opens, so the depth is never taken below 0.
skip_nested : ℕ → ℕ → Bytes → Option Bytes
unfolding nest
skip_nested zero depth p = none
skip_nested (suc fuel) depth p = do
  q ← (if char_at p 0 == b'"' then skip_json_string p else some p)
  round ← nest depth q
  if round.0 == 0 then some round.1 else skip_nested fuel round.0 round.1

-- The loop over a number or a word.
skip_plain : Bytes → Bytes
skip_plain [] = []
skip_plain (c ∷ p) = if c == b',' || closes c then c ∷ p else skip_plain p

pub skip_json_value : Bytes → Option Bytes
unfolding skip_nested skip_plain
skip_json_value cursor =
    let p = skip_ws cursor in
    if char_at p 0 == b'"'
    then skip_json_string p
    else if opens (char_at p 0)
    then skip_nested (length p) 0 p
    else some (skip_plain p)

-- The value of one member, behind its colon: what `out` holds for the key, if this is it, and the cursor.
member_value : Bytes → ℕ → Bytes → Option Bytes → Bytes → Option (Option Bytes × Bytes)
member_value key out_size parsed_key found p =
    if equal parsed_key key
    then (parse_json_string out_size p >>= λ value. some (some value.0, value.1))
    else skip_json_value p >>= λ rest. some (found, rest)

-- The loop `while (1)` of `tnt_json_get_string_field`; `found` is what `out` holds once `found` is
-- set in the source. `parse_json_string` refuses a cursor that is not at a quote.
members : ℕ → Bytes → ℕ → Option Bytes → Bytes → Option Bytes
unfolding member_value
members zero key out_size found cursor = none
members (suc fuel) key out_size found cursor =
    parse_json_string 128 (skip_ws cursor) >>= λ parsed_key.
    let p = skip_ws parsed_key.1 in
    if not (char_at p 0 == b':')
    then none
    else member_value key out_size parsed_key.0 found (skip_ws (drop 1 p)) >>= λ value.
        let q = skip_ws value.1 in
        let more = members fuel key out_size value.0 (drop 1 q) in
        if char_at q 0 == b',' then more else if char_at q 0 == b'}' then value.0 else none

-- `tnt_json_get_string_field`; `none` is `false`.
pub get_string_field : Bytes → Bytes → ℕ → Option Bytes
unfolding members
get_string_field json key out_size =
    let p = skip_ws json in
    if length key == 0 || out_size == 0 || not (char_at p 0 == b'{')
    then none
    else members (length p) key out_size none (drop 1 p)
