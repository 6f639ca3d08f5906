-- ===== src/ExecCatalog.antt =====
-- src/exec_catalog.c: the commands of the exec interface, found by name or alias, with their rules
-- for arguments. The texts of the entries and the functions that print them are left out, but for the
-- list of the names. `args` is `none` where the code has NULL.
pub mod Match
mod Tests
use tnt.Base.{
  ℕ, ◌+◌, Bool, true, false, not, ◌&&◌, ◌||◌, Option, none, some, List, [], ◌∷◌, ◌++◌, ◌==◌,
  if◌then◌else◌, length, Bytes, equal, codes, char_at, contains,
}

-- `tnt_exec_command_id_t`, in its order
pub data ExecCommandId : Type 0 where
  help : ExecCommandId
  health : ExecCommandId
  users : ExecCommandId
  stats : ExecCommandId
  tail : ExecCommandId
  dump : ExecCommandId
  post : ExecCommandId
  exit : ExecCommandId

-- The position in the enumeration
abbrev pub index : ExecCommandId → ℕ
index help = 0
index health = 1
index users = 2
index stats = 3
index tail = 4
index dump = 5
index post = 6
index exit = 7

-- `exec_catalog_entry_t` without its texts
pub record Entry : Type 0 where
  pub id : ExecCommandId
  pub name : Bytes
  pub alias : Option Bytes
  pub no_args : Bool
  pub optional_json : Bool
  pub requires_args : Bool

abbrev entry : ExecCommandId → Bool → Bool → Bool → Option Bytes → Bytes → Entry
entry id no_args optional_json requires_args alias name = record {
  id = id;
  name = name;
  alias = alias;
  no_args = no_args;
  optional_json = optional_json;
  requires_args = requires_args;
}

abbrev pub entries : List Entry
entries =
    entry help true false false (some (codes "--help")) (codes "help")
    ∷ entry health true false false none (codes "health")
    ∷ entry users false true false none (codes "users")
    ∷ entry stats false true false none (codes "stats")
    ∷ entry tail false false false none (codes "tail")
    ∷ entry tail false false false none (codes "tail")
    ∷ entry dump false false false none (codes "dump")
    ∷ entry dump false false false none (codes "dump")
    ∷ entry dump false false false none (codes "dump")
    ∷ entry post false false true none (codes "post")
    ∷ entry post false false true none (codes "post")
    ∷ entry exit true false false none (codes "exit")
    ∷ []

pub entry_for : List Entry → ExecCommandId → Option Entry
entry_for [] id = none
entry_for (e ∷ es) id = if index e.id == index id then some e else entry_for es id

abbrev pub entry_for_id : ExecCommandId → Option Entry
entry_for_id id = entry_for entries id

-- A space or a tab
abbrev pub is_blank : ℕ → Bool
is_blank c = c == b' ' || c == 9

pub skip_spaces : Bytes → Bytes
skip_spaces [] = []
skip_spaces (c ∷ s) = if is_blank c then skip_spaces s else c ∷ s

-- `strncmp(line, name, strlen(name)) == 0`, and the rest of the line.
pub after_name : Bytes → Bytes → Option Bytes
after_name line [] = some line
after_name [] (c ∷ name) = none
after_name (b ∷ line) (c ∷ name) = if b == c then after_name line name else none

abbrev pub some_args : Bytes → Option Bytes
some_args args = if length args == 0 then none else some args

-- Whether the name matches, with what it writes to `args`.
pub name_matches : Bytes → Option Bytes → Option (Option Bytes)
name_matches line none = none
name_matches line (some name) = elim (after_name line name) [
  | none ↦ none
  | some rest ↦
      if char_at rest 0 == 0 || is_blank (char_at rest 0)
      then some (some_args (skip_spaces rest))
      else none
]

pub match_entries : Bytes → List Entry → Option (ExecCommandId × Option Bytes)
match_entries line [] = none
match_entries line (e ∷ es) = elim (name_matches line (some e.name)) [
  | some args ↦ some (e.id, args)
  | none ↦ elim (name_matches line e.alias) [
    | some args ↦ some (e.id, args)
    | none ↦ match_entries line es
  ]
]

-- `exec_catalog_match`
pub match_line : Bytes → Option (ExecCommandId × Option Bytes)
match_line line =
    let line' = skip_spaces line in if length line' == 0 then none else match_entries line' entries

abbrev pub is_missing : Option Bytes → Bool
is_missing none = true
is_missing (some args) = length args == 0

abbrev pub is_missing_or_json : Option Bytes → Bool
is_missing_or_json none = true
is_missing_or_json (some args) = equal args (codes "--json")

-- `exec_catalog_args_valid`
pub args_valid : ExecCommandId → Option Bytes → Bool
args_valid id args = elim (entry_for_id id) [
  | none ↦ false
  | some e ↦
      if e.no_args
      then is_missing args
      else if e.optional_json
      then is_missing_or_json args
      else if e.requires_args
      then not (is_missing args)
      else true
]

-- The loop of `exec_catalog_append_command_list`: `seen` lists the commands whose flag is set. Every
-- command is in its enumeration, so the test of its bounds is left out.
pub command_list_from : List Entry → List ℕ → List Bytes
command_list_from [] seen = []
command_list_from (e ∷ es) seen =
    let rest = command_list_from es seen in
    let rest' = command_list_from es (index e.id ∷ seen) in
    if contains (index e.id) seen then rest else e.name ∷ rest'

-- The names that `exec_catalog_append_command_list` prints, before it joins them by ", ".
pub command_list : List Bytes
command_list = command_list_from entries []
