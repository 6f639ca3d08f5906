-- ===== src/Input/CommandLine.antt =====
-- src/input.c: the completion of a command line by Tab, `command_tab_complete`. The hint that lists
-- the candidates is drawn only, and left out.
pub mod Prefix
pub mod Ascii
use tnt.Base.{
  ℕ, not, Bool, true, false, ◌&&◌, ◌||◌, List, [], ◌∷◌, ◌++◌, ◌==◌, leb, ltb, if◌then◌else◌, length,
  take, drop, get_or, Bytes, codes, contains,
}
use tnt.CommandCatalog.{has_prefix, skip_spaces, Completion, complete_name, complete}
use tnt.Input.Session.{Session, World, Effect, bell}

-- The loop of `prefix_filter`; a match is counted as by `command_catalog_complete`.
unfoldable pub filter_names : List Bytes → Bytes → ℕ → ℕ → Completion → Completion
filter_names [] prefix maxm lcp_size c = c
filter_names (name ∷ cands) prefix maxm lcp_size c =
    filter_names cands prefix maxm lcp_size
      (if has_prefix name prefix then complete_name maxm lcp_size name c else c)

unfoldable pub prefix_filter : List Bytes → Bytes → ℕ → ℕ → Completion
prefix_filter cands prefix maxm lcp_size =
    filter_names cands prefix maxm lcp_size (record { out = []; lcp = []; count = 0 })

-- The part in front of the first space
unfoldable pub first_word : Bytes → Bytes
first_word [] = []
first_word (b ∷ buf) = if b == b' ' then [] else b ∷ first_word buf

-- `strcasecmp(...) == 0`
abbrev pub same_word : Bytes → Bytes → Bool
same_word a b = has_prefix a b && length a == length b

-- `theme_at(i)->name`
abbrev pub theme_names : List Bytes
theme_names =
    codes "cyan"
    ∷ codes "green"
    ∷ codes "magenta"
    ∷ codes "blue"
    ∷ codes "amber"
    ∷ codes "red"
    ∷ codes "mono"
    ∷ []

-- What the first argument of a command can be; no candidates are as good as none that matches,
-- except for the bell.
unfoldable pub candidates : World → Bytes → Bool × List Bytes
candidates w cmd =
    if same_word cmd (codes "theme") || same_word cmd (codes "color")
    then (true, theme_names)
    else if same_word cmd (codes "lang") || same_word cmd (codes "language")
    then (true, codes "en" ∷ codes "zh" ∷ [])
    else if same_word cmd (codes "msg") || same_word cmd (codes "w")
    then (true, take 64 w.usernames)
    else (false, [])

-- What is written back of the matches: `front` is what stands before the word.
unfoldable pub completed : Session → Bytes → Bytes → Completion → Session × List Effect
completed s front word c =
    if c.count == 0
    then (s, bell ∷ [])
    else if c.count == 1
    then (record s { command_input = take 255 (front ++ (get_or c.out 0 [] ++ b' ' ∷ [])) }, [])
    else if ltb (length word) (length c.lcp)
    then (record s { command_input = take 255 (front ++ c.lcp) }, [])
    else (s, [])

unfoldable pub command_tab_complete : World → Session → Session × List Effect
command_tab_complete w s =
    let buf = s.command_input in
    let cmd = first_word buf in
    let argregion = skip_spaces (drop (length cmd) buf) in
    let (known, cands) = candidates w cmd in
    if not (contains b' ' buf)
    then completed s [] buf (complete buf 16 64)
    else if length cmd == 0 || leb 32 (length cmd)
    then (s, [])
    else if contains b' ' argregion
    then (s, [])
    else if known
    then completed s (cmd ++ b' ' ∷ []) argregion (prefix_filter cands argregion 64 64)
    else (s, [])
