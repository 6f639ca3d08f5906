-- ===== src/ExecCatalog/Tests.antt =====
-- The theorem on the exec commands at a concrete line, and runs of the catalog.
use tnt.Base.{false, [], ◌∷◌, Bytes, none, some, codes, equal, contains, ◌≡◌, refl, arith}
use tnt.ExecCatalog.{
  match_line, match_entries, skip_spaces, name_matches, after_name, tail, help, users, args_valid,
  entry_for, command_list, command_list_from,
}
use tnt.ExecCatalog.Match.{word, find_command, match_line-first_word}

-- "\ttail -n 5"
abbrev line : Bytes
line = 9 ∷ codes "tail  -n 5"

match_line-first_word_example : match_line line ≡ some (tail, some (codes "-n 5"))
unfolding word find_command skip_spaces equal
match_line-first_word_example = match_line-first_word line (
  λ e. omega arith,
  (
    λ e. omega arith,
    (
      λ e. omega arith,
      (
        λ e. omega arith,
        (
          λ e. omega arith,
          (
            λ e. omega arith,
            (
              λ e. omega arith,
              (λ e. omega arith, (λ e. omega arith, (λ e. omega arith, (λ e. omega arith, tt)))),
            ),
          ),
        ),
      ),
    ),
  ),
)

alias_found : match_line (codes "--help ") ≡ some (help, none)
unfolding match_line match_entries skip_spaces name_matches after_name
alias_found = refl

json_only : args_valid users (some (codes "--json x")) ≡ false
unfolding args_valid entry_for equal
json_only = refl

each_once :
    command_list
    ≡ codes "help"
      ∷ codes "health"
      ∷ codes "users"
      ∷ codes "stats"
      ∷ codes "tail"
      ∷ codes "dump"
      ∷ codes "post"
      ∷ codes "exit"
      ∷ []
unfolding command_list command_list_from contains
each_once = refl
