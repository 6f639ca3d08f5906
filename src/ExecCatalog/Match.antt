-- ===== src/ExecCatalog/Match.antt =====
-- `exec_catalog_match` looks the first word up in the table.
use tnt.Base.{
  Bool, false, List, [], ◌∷◌, Bytes, Option, none, some, ◌==◌, ◌||◌, length, drop, equal,
  if◌then◌else◌, ◌≡◌, ◌≢◌, refl, arith, All,
}
use tnt.ExecCatalog.{
  ExecCommandId, Entry, entries, skip_spaces, is_blank, some_args, after_name, name_matches,
  match_entries, match_line,
}

-- A line up to its first space or tab.
unfoldable pub word : Bytes → Bytes
word [] = []
word (c ∷ line) = if is_blank c then [] else c ∷ word line

abbrev pub is_alias : Bytes → Option Bytes → Bool
is_alias w none = false
is_alias w (some name) = equal w name

-- The first command that has the word for its name or alias.
unfoldable pub find_command : Bytes → List Entry → Option ExecCommandId
find_command w [] = none
find_command w (e ∷ es) =
    if equal w e.name || is_alias w e.alias then some e.id else find_command w es

abbrev pub arguments : Bytes → Option Bytes
arguments line = some_args (skip_spaces (drop (length (word line)) line))

abbrev IsText : Bytes → Type 0
IsText = All (λ c. c ≢ 0)

abbrev HasNoBlank : Bytes → Type 0
HasNoBlank = All (λ c. (c ≢ b' ') × (c ≢ 9))

abbrev AliasHasNoBlank : Option Bytes → Type 0
AliasHasNoBlank none = Unit {0}
AliasHasNoBlank (some name) = HasNoBlank name

name_matches_lem :
    (line name : Bytes)
    → IsText line
    → HasNoBlank name
    → name_matches line (some name)
      ≡ (if equal (word line) name then some (arguments line) else none)
unfolding name_matches after_name word equal
name_matches_lem [] [] h k = refl
name_matches_lem [] (c ∷ name) h k = refl
name_matches_lem (b ∷ line) [] h k = ground arith
name_matches_lem (b ∷ line) (c ∷ name) h k = ground (arith, name_matches_lem line name h.1 k.1)

alias_matches_lem :
    (line : Bytes) (alias : Option Bytes)
    → IsText line
    → AliasHasNoBlank alias
    → name_matches line alias ≡ (if is_alias (word line) alias then some (arguments line) else none)
alias_matches_lem line none h k = unfold name_matches in refl
alias_matches_lem line (some name) h k = name_matches_lem line name h k

abbrev NamesHaveNoBlank : List Entry → Type 0
NamesHaveNoBlank = All (λ e. HasNoBlank e.name × AliasHasNoBlank e.alias)

abbrev with_arguments : Option Bytes → Option ExecCommandId → Option (ExecCommandId × Option Bytes)
with_arguments args none = none
with_arguments args (some id) = some (id, args)

match_entries_lem :
    (line : Bytes) (es : List Entry)
    → IsText line
    → NamesHaveNoBlank es
    → match_entries line es ≡ with_arguments (arguments line) (find_command (word line) es)
unfolding match_entries find_command
match_entries_lem line [] h k = refl
match_entries_lem line (e ∷ es) h k = ground (
  arith,
  name_matches_lem line e.name h k.0.0,
  alias_matches_lem line e.alias h k.0.1,
  match_entries_lem line es h k.1,
)

IsText-skip_spaces : (line : Bytes) → IsText line → IsText (skip_spaces line)
unfolding skip_spaces
IsText-skip_spaces [] h = h
IsText-skip_spaces (c ∷ line) h = ground (arith, IsText-skip_spaces line h.1)

-- On every C string the match is the first command of the table whose name or alias is the first word
-- of the line, spaces and tabs before it left out; the arguments are what follows the word and the
-- spaces and tabs behind it, NULL if nothing does. A blank line and an unknown word match nothing.
pub match_line-first_word :
    (line : Bytes)
    → All (λ c. c ≢ 0) line
    → match_line line ≡ (
        if length (skip_spaces line) == 0
        then none
        else with_arguments
            (arguments (skip_spaces line))
            (find_command (word (skip_spaces line)) entries))
unfolding match_line
match_line-first_word line h =
    rw (match_entries_lem (skip_spaces line) entries (IsText-skip_spaces line h) (omega arith)) refl
