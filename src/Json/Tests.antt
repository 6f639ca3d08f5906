-- ===== src/Json/Tests.antt =====
-- The theorems on src/json_text.c at concrete texts.
use tnt.Base.{List, none, [], ◌∷◌, some, Bytes, codes, ◌≡◌, arith}
use tnt.Json.{escaped, append_string, parse_json_string}
use tnt.Json.Field.{get_string_field}
use tnt.Json.Field.Object.{members_text, last_value, get_string_field-members}
use tnt.Json.Quote.{parse_json_string-append_string}

-- A quote, a line feed, a control character and a byte of a longer sequence.
abbrev text : Bytes
text = 97 ∷ 34 ∷ 10 ∷ 1 ∷ 0xC3 ∷ 0xA9 ∷ []

parse_json_string-append_string_example :
    parse_json_string 16 (append_string 64 [] text) ≡ some (text, [])
unfolding escaped
parse_json_string-append_string_example =
    parse_json_string-append_string 64 16 text (omega arith) (omega arith) (omega arith)

-- The key stands twice, with another one between.
abbrev object : List (Bytes × Bytes)
object = (codes "name", codes "a") ∷ (codes "kind", codes "\"x") ∷ (codes "name", codes "b") ∷ []

get_string_field-members_example :
    get_string_field (b'{' ∷ members_text object) (codes "name") 16
    ≡ last_value (codes "name") none object
get_string_field-members_example =
    get_string_field-members (codes "name") 16 object (omega arith) (omega arith) (omega arith)
