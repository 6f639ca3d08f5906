-- ===== src/Input/CommandMode.antt =====
-- src/input.c: the keys of the COMMAND mode in `handle_key`. What
-- `commands_dispatch` makes of the session is the field `dispatch` of the world.
use tnt.Base.{◌≡◌, ◌⊎◌, ℕ, ◌+◌, ◌-◌, ◌&&◌, ◌||◌, [], ◌∷◌, ltb, ◌==◌, if◌then◌else◌, length, get_or}
use tnt.Utf8.{remove_last_char, remove_last_word}
use tnt.Input.Channel.{byte, timeout, Channel}
use tnt.Input.CommandLine.{command_tab_complete}
use tnt.Input.Session.{World, Session, Outcome, normal, consume, ignore, commands_dispatch}

unfoldable pub command_up : Session → Session
command_up s =
    if ltb 0 (length s.command_history) && ltb 0 s.command_history_pos
    then record s {
      command_history_pos = s.command_history_pos - 1;
      command_input = get_or s.command_history (s.command_history_pos - 1) [];
    }
    else s

unfoldable pub command_down : Session → Session
command_down s =
    if ltb (s.command_history_pos + 1) (length s.command_history)
    then record s {
      command_history_pos = s.command_history_pos + 1;
      command_input = get_or s.command_history (s.command_history_pos + 1) [];
    }
    else record s { command_history_pos = length s.command_history; command_input = [] }

abbrev pub leave_command : Session → Channel → Outcome
leave_command s c = consume (record s { mode = normal; command_input = [] }) [] c

unfoldable pub command_bracket : Session → Channel → Outcome
command_bracket s [] = leave_command s []
command_bracket s (timeout ∷ c) = leave_command s c
command_bracket s (byte b ∷ c) =
    if b == b'A'
    then consume (command_up s) [] c
    else if b == b'B'
    then consume (command_down s) [] c
    else leave_command s c

unfoldable pub command_escape : Session → Channel → Outcome
command_escape s [] = leave_command s []
command_escape s (timeout ∷ c) = leave_command s c
command_escape s (byte b ∷ c) = if b == b'[' then command_bracket s c else leave_command s c

-- Carriage return or line feed
abbrev pub IsEnter : ℕ → Type 0
IsEnter key = (key ≡ 13) ⊎ (key ≡ 10)

unfoldable pub command_key : World → ℕ → Session → Channel → Outcome
command_key w key s c =
    if key == 27
    then command_escape s c
    else if key == 13 || key == 10
    then consume (w.dispatch s) (commands_dispatch ∷ []) c
    else if key == 127 || key == 8
    then consume (record s { command_input = remove_last_char s.command_input }) [] c
    else if key == 23
    then consume (record s { command_input = remove_last_word s.command_input }) [] c
    else if key == 21
    then consume (record s { command_input = [] }) [] c
    else if key == 9
    then consume (command_tab_complete w s).0 (command_tab_complete w s).1 c
    else ignore s c
