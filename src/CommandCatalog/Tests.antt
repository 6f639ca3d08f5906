-- ===== src/CommandCatalog/Tests.antt =====
-- The theorems on the commands at concrete inputs, and runs of the catalog.
use tnt.Base.{true, false, [], ◌∷◌, ◌≤◌, Bytes, some, codes, equal, ◌≡◌, refl, inl, inr, arith, All}
use tnt.CommandCatalog.{
  match_line, skip_spaces, msg, inbox, args_valid, entry_for, edit_distance, suggest, entries,
  complete, has_prefix,
}
use tnt.CommandCatalog.Distance.{Edits, done, keep, insert, delete, edit_distance-least}
use tnt.CommandCatalog.Names.{Names}
use tnt.CommandCatalog.Suggest.{suggest-closest}
use tnt.CommandCatalog.Match.{word, find_command, is_one_of, match_line-word}
use tnt.CommandCatalog.Complete.{candidates, Starts, complete-lcp, complete-candidates}

match_line-word_example : match_line (codes " w bob ") ≡ some (msg, codes "bob ")
unfolding word find_command is_one_of skip_spaces equal
match_line-word_example = match_line-word (codes " w bob ") (
  λ e. omega arith,
  (
    λ e. omega arith,
    (
      λ e. omega arith,
      (λ e. omega arith, (λ e. omega arith, (λ e. omega arith, (λ e. omega arith, tt)))),
    ),
  ),
)

-- "hepl" for "help"
abbrev typed : Bytes
typed = codes "hepl"

swapped : Edits typed (codes "help") 2
swapped = keep b'h' (keep b'e' (insert b'l' (keep b'p' (delete b'l' done))))

edit_distance-least_example :
    Edits typed (codes "help") (edit_distance typed (codes "help"))
    × (edit_distance typed (codes "help") ≤ 2)
edit_distance-least_example = edit_distance-least swapped (omega arith) (omega arith)

help_named : Names entries (codes "help") (codes "help")
help_named = inr (inr (inr (inr (inr (inr (inr (inr (inr (inl (refl, inl refl))))))))))

suggest-closest_example :
    (canonical' name' : Bytes) × Names entries canonical' name'
    × (suggest typed ≡ some canonical')
    × (edit_distance typed name' ≤ 2)
suggest-closest_example =
    suggest-closest (codes "help") help_named swapped (omega arith) (omega arith) (omega arith)

complete-lcp_example :
    let lcp = (complete (codes "M") 8 64).lcp in
    All (Starts lcp) (candidates (codes "M") entries) × Starts (codes "m") lcp
unfolding candidates has_prefix
complete-lcp_example =
    complete-lcp (codes "M") 8 64 (codes "m") (omega arith) (omega arith) (omega arith)
      (omega arith)

complete-candidates_example :
    ((complete (codes "L") 1 64).count ≡ 2) × ((complete (codes "L") 1 64).out ≡ codes "last" ∷ [])
unfolding candidates has_prefix
complete-candidates_example = complete-candidates (codes "L") 1 64

only_clear : args_valid inbox (codes " clear") ≡ true
unfolding args_valid entry_for equal skip_spaces
only_clear = refl

trailing_space : args_valid inbox (codes "clear ") ≡ false
unfolding args_valid entry_for equal skip_spaces
trailing_space = refl
