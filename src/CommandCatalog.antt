-- ===== src/CommandCatalog.antt =====
-- src/command_catalog.c: the commands of the interactive mode, found by name or alias, with their
-- rules for arguments, a suggestion for a mistyped name, and completion. The texts of the entries
-- and the functions that print them are left out. No string is NULL here but a missing `args`, which
-- no caller passes.
pub mod Distance
pub mod Names
pub mod Suggest
pub mod Match
pub mod Complete
mod Tests
use tnt.Base.{
  ℕ, zero, suc, ◌+◌, Bool, true, false, not, ◌&&◌, ◌||◌, Option, none, some, List, [], ◌∷◌, ◌++◌,
  ltb, leb, ◌==◌, ◌-◌, get_or, if◌then◌else◌, length, take, drop, Bytes, equal, codes, char_at,
}

-- `tnt_command_id_t`, in its order
pub data CommandId : Type 0 where
  users : CommandId
  help : CommandId
  lang : CommandId
  msg : CommandId
  reply : CommandId
  inbox : CommandId
  nick : CommandId
  last : CommandId
  search_history : CommandId
  mute_joins : CommandId
  theme : CommandId
  quit : CommandId
  clear : CommandId

-- The position in the enumeration
abbrev pub index : CommandId → ℕ
index users = 0
index help = 1
index lang = 2
index msg = 3
index reply = 4
index inbox = 5
index nick = 6
index last = 7
index search_history = 8
index mute_joins = 9
index theme = 10
index quit = 11
index clear = 12

-- `command_catalog_entry_t` without its texts; `names` ends at its NULL.
pub record Entry : Type 0 where
  pub id : CommandId
  pub canonical : Bytes
  pub names : List Bytes
  pub no_args : Bool
  pub requires_args : Bool

abbrev entry : CommandId → List Bytes → Bool → Bool → Bytes → Entry
entry id names no_args requires_args canonical = record {
  id = id;
  canonical = canonical;
  names = names;
  no_args = no_args;
  requires_args = requires_args;
}

abbrev pub entries : List Entry
entries =
    entry users (codes "users" ∷ codes "list" ∷ codes "who" ∷ []) true false (codes "users")
    ∷ entry msg (codes "msg" ∷ codes "w" ∷ []) false true (codes "msg")
    ∷ entry reply (codes "reply" ∷ codes "r" ∷ []) false true (codes "reply")
    ∷ entry inbox (codes "inbox" ∷ []) false false (codes "inbox")
    ∷ entry nick (codes "nick" ∷ codes "name" ∷ []) false true (codes "nick")
    ∷ entry last (codes "last" ∷ []) false false (codes "last")
    ∷ entry search_history (codes "search" ∷ []) false true (codes "search")
    ∷ entry mute_joins (codes "mute-joins" ∷ codes "mute" ∷ []) true false (codes "mute-joins")
    ∷ entry theme (codes "theme" ∷ codes "color" ∷ []) false false (codes "theme")
    ∷ entry help (codes "help" ∷ []) true false (codes "help")
    ∷ entry lang (codes "lang" ∷ codes "language" ∷ []) false false (codes "lang")
    ∷ entry clear (codes "clear" ∷ codes "cls" ∷ []) true false (codes "clear")
    ∷ entry quit (codes "q" ∷ codes "quit" ∷ codes "exit" ∷ []) true false (codes "q")
    ∷ []

pub entry_for : List Entry → CommandId → Option Entry
entry_for [] id = none
entry_for (e ∷ es) id = if index e.id == index id then some e else entry_for es id

abbrev pub entry_for_id : CommandId → Option Entry
entry_for_id id = entry_for entries id

unfoldable pub skip_spaces : Bytes → Bytes
skip_spaces [] = []
skip_spaces (c ∷ s) = if c == b' ' then skip_spaces s else c ∷ s

-- `strncmp(line, name, strlen(name)) == 0`, and the rest of the line.
pub after_name : Bytes → Bytes → Option Bytes
after_name line [] = some line
after_name [] (c ∷ name) = none
after_name (b ∷ line) (c ∷ name) = if b == c then after_name line name else none

-- The arguments, if the name stands at the start of the line and ends there.
pub name_matches : Bytes → Bytes → Option Bytes
name_matches line name = elim (after_name line name) [
  | none ↦ none
  | some rest ↦
      if char_at rest 0 == 0 || char_at rest 0 == b' ' then some (skip_spaces rest) else none
]

pub match_names : Bytes → List Bytes → Option Bytes
match_names line [] = none
match_names line (name ∷ names) = elim (name_matches line name) [
  | none ↦ match_names line names
  | some args ↦ some args
]

pub match_entries : Bytes → List Entry → Option (CommandId × Bytes)
match_entries line [] = none
match_entries line (e ∷ es) = elim (match_names line e.names) [
  | none ↦ match_entries line es
  | some args ↦ some (e.id, args)
]

-- `command_catalog_match`
pub match_line : Bytes → Option (CommandId × Bytes)
match_line line =
    let line' = skip_spaces line in if length line' == 0 then none else match_entries line' entries

-- `command_catalog_args_valid`
pub args_valid : CommandId → Bytes → Bool
args_valid id args =
    let rest = skip_spaces args in
    elim (entry_for_id id) [
      | none ↦ false
      | some e ↦
          if index id == index inbox
          then length rest == 0 || equal rest (codes "clear")
          else if e.no_args
          then length rest == 0
          else if e.requires_args
          then not (length rest == 0)
          else true
    ]

pub min3 : ℕ → ℕ → ℕ → ℕ
min3 a b c = let m = if ltb a b then a else b in if ltb m c then m else c

-- The inner loop of `edit_distance`: `left` is `curr[j - 1]`, `diagonal` is `prev[j - 1]`, and the
-- row is `prev` from `j` on.
pub next_cells : ℕ → ℕ → ℕ → List ℕ → Bytes → List ℕ
unfolding min3
next_cells x left diagonal row [] = []
next_cells x left diagonal [] (y ∷ b) = []
next_cells x left diagonal (up ∷ row) (y ∷ b) =
    let cost = if x == y then 0 else 1 in
    let cell = min3 (up + 1) (left + 1) (diagonal + cost) in cell ∷ next_cells x cell up row b

pub next_row : ℕ → ℕ → List ℕ → Bytes → List ℕ
next_row x i [] b = []
next_row x i (diagonal ∷ row) b = i ∷ next_cells x i diagonal row b

-- The outer loop, from round `i` on.
pub rows : ℕ → Bytes → List ℕ → Bytes → List ℕ
rows i [] row b = row
rows i (x ∷ a) row b = rows (suc i) a (next_row x i row b) b

-- `prev[j] = j` from `j` on.
pub first_row : ℕ → Bytes → List ℕ
first_row j [] = j ∷ []
first_row j (y ∷ b) = j ∷ first_row (suc j) b

pub edit_distance : Bytes → Bytes → ℕ
edit_distance a b =
    if leb 32 (length a) || leb 32 (length b)
    then 99
    else get_or (rows 1 a (first_row 0 b) b) (length b) 0

-- The best command so far, with its distance.
abbrev pub Best : Type 0
Best = Option Bytes × ℕ

pub suggest_names : Bytes → Bytes → List Bytes → Best → Best
suggest_names typed canonical [] best = best
suggest_names typed canonical (name ∷ names) (best, best_distance) =
    let distance = edit_distance typed name in
    suggest_names typed canonical names
      (if ltb distance best_distance then (some canonical, distance) else (best, best_distance))

pub suggest_entries : Bytes → List Entry → Best → Best
suggest_entries typed [] best = best
suggest_entries typed (e ∷ es) best =
    suggest_entries typed es (suggest_names typed e.canonical e.names best)

-- `command_catalog_suggest`
pub suggest : Bytes → Option Bytes
suggest typed =
    let (best, best_distance) = suggest_entries typed entries (none, 99) in
    if length typed == 0 then none else if leb best_distance 2 then best else none

-- `tolower` in the C locale, as `strncasecmp` applies it to both sides.
abbrev pub to_lower : ℕ → ℕ
to_lower c = if leb b'A' c && leb c b'Z' then c + 32 else c

-- `strncasecmp(name, prefix, strlen(prefix)) == 0`
unfoldable pub has_prefix : Bytes → Bytes → Bool
has_prefix name [] = true
has_prefix [] (c ∷ prefix) = false
has_prefix (b ∷ name) (c ∷ prefix) = to_lower b == to_lower c && has_prefix name prefix

-- `lcp` cut at its first difference from `name`.
unfoldable pub common : Bytes → Bytes → Bytes
common [] name = []
common (a ∷ lcp) [] = []
common (a ∷ lcp) (b ∷ name) = if a == b then a ∷ common lcp name else []

-- `out`, `lcp` and `count`
pub record Completion : Type 0 where
  pub out : List Bytes
  pub lcp : Bytes
  pub count : ℕ

unfoldable pub complete_name : ℕ → ℕ → Bytes → Completion → Completion
complete_name max lcp_size name c = record {
  out = if ltb c.count max then c.out ++ name ∷ [] else c.out;
  lcp =
      if lcp_size == 0
      then c.lcp
      else if c.count == 0
      then take (lcp_size - 1) name
      else common c.lcp name;
  count = c.count + 1;
}

unfoldable pub complete_entries : Bytes → ℕ → ℕ → List Entry → Completion → Completion
complete_entries prefix max lcp_size [] c = c
complete_entries prefix max lcp_size (e ∷ es) c =
    complete_entries prefix max lcp_size es
      (if has_prefix e.canonical prefix then complete_name max lcp_size e.canonical c else c)

-- `command_catalog_complete`
unfoldable pub complete : Bytes → ℕ → ℕ → Completion
complete prefix max lcp_size =
    complete_entries prefix max lcp_size entries (record { out = []; lcp = []; count = 0 })
