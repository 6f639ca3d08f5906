-- ===== src/CommandCatalog/Match.antt =====
-- `command_catalog_match` looks the first word up in the table.
use tnt.Base.{
  Bool, false, List, [], ◌∷◌, Bytes, Option, none, some, ◌==◌, ◌||◌, length, drop, equal,
  if◌then◌else◌, ◌≡◌, ◌≢◌, refl, arith, All,
}
use tnt.CommandCatalog.{
  CommandId, Entry, entries, skip_spaces, after_name, name_matches, match_names, match_entries,
  match_line,
}
use tnt.CommandCatalog.Names.{AllNames}

-- A line up to its first space.
unfoldable pub word : Bytes → Bytes
word [] = []
word (c ∷ line) = if c == b' ' then [] else c ∷ word line

unfoldable pub is_one_of : Bytes → List Bytes → Bool
is_one_of w [] = false
is_one_of w (name ∷ names) = equal w name || is_one_of w names

-- The first command that has the word among its names.
unfoldable pub find_command : Bytes → List Entry → Option CommandId
find_command w [] = none
find_command w (e ∷ es) = if is_one_of w e.names then some e.id else find_command w es

-- What follows the first word, without the spaces before it.
abbrev pub arguments : Bytes → Bytes
arguments line = skip_spaces (drop (length (word line)) line)

abbrev IsText : Bytes → Type 0
IsText = All (λ c. c ≢ 0)

abbrev HasNoSpace : Bytes → Type 0
HasNoSpace = All (λ c. c ≢ b' ')

name_matches_lem :
    (line name : Bytes)
    → IsText line
    → HasNoSpace name
    → name_matches line name ≡ (if equal (word line) name then some (arguments line) else none)
unfolding name_matches after_name word equal
name_matches_lem [] [] h k = refl
name_matches_lem [] (c ∷ name) h k = refl
name_matches_lem (b ∷ line) [] h k = ground arith
name_matches_lem (b ∷ line) (c ∷ name) h k = ground (arith, name_matches_lem line name h.1 k.1)

match_names_lem :
    (line : Bytes) (names : List Bytes)
    → IsText line
    → All HasNoSpace names
    → match_names line names ≡ (if is_one_of (word line) names then some (arguments line) else none)
unfolding match_names is_one_of
match_names_lem line [] h k = refl
match_names_lem line (name ∷ names) h k =
    ground (arith, name_matches_lem line name h k.0, match_names_lem line names h k.1)

abbrev with_arguments : Bytes → Option CommandId → Option (CommandId × Bytes)
with_arguments args none = none
with_arguments args (some id) = some (id, args)

match_entries_lem :
    (line : Bytes) (es : List Entry)
    → IsText line
    → AllNames HasNoSpace es
    → match_entries line es ≡ with_arguments (arguments line) (find_command (word line) es)
unfolding match_entries find_command
match_entries_lem line [] h k = refl
match_entries_lem line (e ∷ es) h k =
    ground (arith, match_names_lem line e.names h k.0, match_entries_lem line es h k.1)

IsText-skip_spaces : (line : Bytes) → IsText line → IsText (skip_spaces line)
unfolding skip_spaces
IsText-skip_spaces [] h = h
IsText-skip_spaces (c ∷ line) h = ground (arith, IsText-skip_spaces line h.1)

-- On every C string the match is the first command of the table that has the first word of the
-- line, spaces before it left out, among its names, and the arguments are what follows the word and
-- the spaces behind it; a blank line and an unknown word match nothing.
pub match_line-word :
    (line : Bytes)
    → All (λ c. c ≢ 0) line
    → match_line line ≡ (
        if length (skip_spaces line) == 0
        then none
        else with_arguments
            (arguments (skip_spaces line))
            (find_command (word (skip_spaces line)) entries))
unfolding match_line
match_line-word line h =
    rw (match_entries_lem (skip_spaces line) entries (IsText-skip_spaces line h) (omega arith)) refl
