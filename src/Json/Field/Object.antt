-- ===== src/Json/Field/Object.antt =====
-- `tnt_json_get_string_field` on an object of strings.
use tnt.Base.{
  ℕ, zero, suc, ◌≤◌, ◌<◌, false, List, [], ◌∷◌, ◌++◌, Option, none, some, ◌==◌, if◌then◌else◌,
  Bool-cases, length, length-append, Bytes, All, equal, IsCString, ◌≡◌, refl, ◌∙◌, inl, inr, arith,
}
use tnt.Json.{skip_ws, parse_json_string}
use tnt.Json.Quote.{quoted, parse_json_string-quoted}
use tnt.Json.Field.{skip_json_value, member_value, members, get_string_field}
use tnt.Json.Field.Skip.{skip_json_string-quoted}

-- What stands behind a member, with the text of the members to come.
abbrev pub after : List (Bytes × Bytes) → Bytes → Bytes
after [] text = b'}' ∷ []
after (m ∷ ms) text = b',' ∷ text

-- The members of an object, without the opening brace.
abbrev pub members_text : List (Bytes × Bytes) → Bytes
members_text [] = b'}' ∷ []
members_text ((key, value) ∷ ms) =
    quoted key ++ (b':' ∷ (quoted value ++ after ms (members_text ms)))

-- The value of the last member with the key.
abbrev pub last_value : Bytes → Option Bytes → List (Bytes × Bytes) → Option Bytes
last_value key found [] = found
last_value key found ((k, value) ∷ ms) =
    last_value key (if equal k key then some value else found) ms

-- Keys and values that the parser has room for.
abbrev pub Fits : ℕ → Bytes × Bytes → Type 0
Fits out_size (k, value) =
    IsCString k × (length k < 128) × IsCString value × (length value < out_size)

member_value_lem :
    (key : Bytes) (out_size : ℕ) (k value rest : Bytes) (found : Option Bytes)
    → IsCString value
    → length value < out_size
    → member_value key out_size k found (quoted value ++ rest)
      ≡ some ((if equal k key then some value else found), rest)
unfolding member_value skip_json_value skip_ws
member_value_lem key out_size k value rest found chars room = elim (Bool-cases (equal k key)) [
  | inl same ↦ rw (same, parse_json_string-quoted out_size value rest chars room) refl
  | inr other ↦ rw (other, skip_json_string-quoted value rest chars) refl
]

members_lem :
    (fuel : ℕ) (key : Bytes) (out_size : ℕ) (found : Option Bytes) (m : Bytes × Bytes)
    (ms : List (Bytes × Bytes))
    → length ms < fuel
    → All (Fits out_size) (m ∷ ms)
    → members fuel key out_size found (members_text (m ∷ ms)) ≡ last_value key found (m ∷ ms)
unfolding members skip_ws
members_lem zero key out_size found m ms h fits = absurd (omega arith)
members_lem (suc fuel) key out_size found (k, value) [] h fits =
    let (key_chars, key_room, value_chars, value_room) = fits.0 in
    let behind : Bytes = b'}' ∷ [] in
    rw
      (
        parse_json_string-quoted 128 k (b':' ∷ (quoted value ++ behind)) key_chars key_room,
        member_value_lem key out_size k value behind found value_chars value_room,
      )
      refl
members_lem (suc fuel) key out_size found (k, value) (n ∷ ms) h fits =
    let (key_chars, key_room, value_chars, value_room) = fits.0 in
    let behind : Bytes = b',' ∷ members_text (n ∷ ms) in
    rw
      (
        parse_json_string-quoted 128 k (b':' ∷ (quoted value ++ behind)) key_chars key_room,
        member_value_lem key out_size k value behind found value_chars value_room,
      )
      (members_lem fuel key out_size (if equal k key then some value else found) n ms (omega arith)
        fits.1)

length-le-members_text : (ms : List (Bytes × Bytes)) → length ms < length (members_text ms)
length-le-members_text [] = omega arith
length-le-members_text (m ∷ []) = omega (
  arith,
  length-append (quoted m.0) (b':' ∷ (quoted m.1 ++ b'}' ∷ [])),
  length-append (quoted m.1) (b'}' ∷ []),
)
length-le-members_text (m ∷ n ∷ ms) =
    let later : Bytes = b',' ∷ members_text (n ∷ ms) in
    omega (
      arith,
      length-append (quoted m.0) (b':' ∷ (quoted m.1 ++ later)),
      length-append (quoted m.1) later,
      length-le-members_text (n ∷ ms),
    )

get_string_field_lem :
    (key : Bytes) (out_size : ℕ) (p : Bytes)
    → 1 ≤ length key
    → 1 ≤ out_size
    → get_string_field (b'{' ∷ p) key out_size ≡ members (suc (length p)) key out_size none p
unfolding get_string_field skip_ws
get_string_field_lem key out_size p h room =
    let asked : (length key == 0) ≡ false = ground arith in
    let sized : (out_size == 0) ≡ false = ground arith in rw (asked, sized) refl

members_empty :
    (fuel : ℕ) (key : Bytes) (out_size : ℕ) → members fuel key out_size none (b'}' ∷ []) ≡ none
unfolding members skip_ws parse_json_string
members_empty zero key out_size = refl
members_empty (suc fuel) key out_size = refl

-- In an object whose keys and values are strings as `tnt_json_append_string` writes them, set down
-- without spaces, and for which the parser has room, the field of a key that is not empty is the
-- value of the last member with that key, and there is none where no member has it.
pub get_string_field-members :
    (key : Bytes) (out_size : ℕ) (ms : List (Bytes × Bytes))
    → 1 ≤ length key
    → 1 ≤ out_size
    → All (Fits out_size) ms
    → get_string_field (b'{' ∷ members_text ms) key out_size ≡ last_value key none ms
get_string_field-members key out_size [] h room fits =
    get_string_field_lem key out_size (b'}' ∷ []) h room ∙ members_empty 2 key out_size
get_string_field-members key out_size (m ∷ ms) h room fits =
    let text = members_text (m ∷ ms) in
    get_string_field_lem key out_size text h room
    ∙ members_lem (suc (length text)) key out_size none m ms
        (omega (arith, length-le-members_text (m ∷ ms))) fits
