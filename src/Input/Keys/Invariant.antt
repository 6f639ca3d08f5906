-- ===== src/Input/Keys/Invariant.antt =====
-- No key breaks a session: its lines stay printable UTF-8 within their buffers, its histories stay
-- within sixteen lines, and their positions within them.
use tnt.Base.{
  ◌≢◌, ◌≡◌, inl, inr, refl, ℕ, ◌+◌, ◌-◌, ◌≤◌, List, [], ◌∷◌, length, drop, codes, Bytes, arith, All,
  Option-cases,
}
use tnt.InputBuffer.Feed.{IsLine}
use tnt.InputBuffer.Erase.{remove_last_char-IsLine, remove_last_word-IsLine}
use tnt.Input.Channel.{byte, timeout, Channel, IsReadByte}
use tnt.MessageLog.{max_message_len}
use tnt.Input.Paste.Line.{bracketed_paste-IsLine}
use tnt.Input.CommandLine.{command_tab_complete}
use tnt.Input.CommandLine.Ascii.{
  IsPlainName, plain_IsLine, command_tab_complete_only, command_tab_complete-IsLine,
}
use tnt.Input.Session.{
  command, refresh_active_output, Session, World, ctrl_c, dismiss_command_output,
  normal_enter_insert, normal_scroll_to_latest, normal_scroll_by,
}
use tnt.Input.InsertMode.{
  first_match, insert_key, insert_escape, insert_bracket, enter, history_up, history_down,
  complete_mention, mention_below,
}
use tnt.Input.NormalMode.{normal_key, normal_escape, normal_bracket, normal_digit}
use tnt.Input.CommandMode.{
  IsEnter, command_key, command_escape, command_bracket, command_up, command_down,
}
use tnt.Input.Lines.{
  IsHistory, empty-IsLine, get_or-IsLine, remember-IsHistory, mention_below_found, mention-IsLine,
}
use tnt.Input.Keys.{handle_key, help_key, output_key, mode_key}

pub record IsSession (s : Session) : Type 0 where
  pub input : IsLine max_message_len s.input
  pub sent : IsHistory max_message_len s.insert_history
  pub sent_pos : s.insert_history_pos ≤ length s.insert_history
  pub typed : IsLine 256 s.command_input
  pub commands : IsHistory 256 s.command_history
  pub command_pos : s.command_history_pos ≤ length s.command_history

ctrl_c-IsSession : (w : World) (s : Session) → IsSession s → IsSession (ctrl_c w s)
unfolding ctrl_c dismiss_command_output normal_enter_insert normal_scroll_to_latest
ctrl_c-IsSession w s h = ground (arith, empty-IsLine 256)

names_IsLine : (names : List Bytes) → All IsPlainName names → All (IsLine 64) names
names_IsLine [] h = tt
names_IsLine (name ∷ names) h = (plain_IsLine 64 name h.0.bytes h.0.short, names_IsLine names h.1)

first_match-IsLine :
    (own prefix : Bytes) (names : List Bytes)
    → All (IsLine 64) names
    → IsLine 64 (first_match own prefix names)
unfolding first_match
first_match-IsLine own prefix [] h = empty-IsLine 64 (omega arith)
first_match-IsLine own prefix (name ∷ names) h =
    ground (arith, h.0, first_match-IsLine own prefix names h.1)

complete_mention-IsSession :
    (w : World) (s : Session)
    → All IsPlainName w.usernames
    → IsSession s
    → IsSession (complete_mention w s)
unfolding complete_mention
complete_mention-IsSession w s names h =
    elim (Option-cases (mention_below (length s.input) s.input)) [
      | inl missing ↦ rw (missing, complete_mention) h
      | inr (at, found) ↦
          let (inside, mention) = mention_below_found (length s.input) at s.input found in
          let name = first_match s.username (drop (at + 1) s.input) w.usernames in
          let line = mention-IsLine max_message_len 64 at s.input name h.input mention inside (
            first_match-IsLine s.username (drop (at + 1) s.input) w.usernames
              (names_IsLine w.usernames names)) in
          rw (found, complete_mention) (ground (arith, line))
    ]

enter-IsSession :
    (w : World) (s : Session) (c : Channel) → IsSession s → IsSession (enter w s c).session
unfolding enter
enter-IsSession w s c h = ground (
  arith,
  empty-IsLine max_message_len,
  remember-IsHistory max_message_len s.insert_history s.input h.sent h.input,
)

history_up-IsSession : (s : Session) → IsSession s → IsSession (history_up s)
unfolding history_up
history_up-IsSession s h = ground (
  arith,
  get_or-IsLine max_message_len s.insert_history (s.insert_history_pos - 1) (omega arith)
      h.sent.lines,
)

history_down-IsSession : (s : Session) → IsSession s → IsSession (history_down s)
unfolding history_down
history_down-IsSession s h = ground (
  arith,
  empty-IsLine max_message_len,
  get_or-IsLine max_message_len s.insert_history (s.insert_history_pos + 1) (omega arith)
      h.sent.lines,
)

insert_bracket-IsSession :
    (w : World) (s : Session) (c : Channel)
    → All IsReadByte c
    → IsSession s
    → IsSession (insert_bracket w s c).session
unfolding insert_bracket normal_scroll_to_latest
insert_bracket-IsSession w s [] k h = ground arith
insert_bracket-IsSession w s (timeout ∷ c) k h = ground arith
insert_bracket-IsSession w s (byte b ∷ c) k h = ground (
  arith,
  history_up-IsSession s h,
  history_down-IsSession s h,
  bracketed_paste-IsLine s.input c h.input k.1,
)

insert_escape-IsSession :
    (w : World) (s : Session) (c : Channel)
    → All IsReadByte c
    → IsSession s
    → IsSession (insert_escape w s c).session
unfolding insert_escape normal_scroll_to_latest
insert_escape-IsSession w s [] k h = ground arith
insert_escape-IsSession w s (timeout ∷ c) k h = ground arith
insert_escape-IsSession w s (byte b ∷ c) k h = ground (arith, insert_bracket-IsSession w s c k.1 h)

insert_key-IsSession :
    (w : World) (key : ℕ) (s : Session) (c : Channel)
    → All IsPlainName w.usernames
    → All IsReadByte c
    → IsSession s
    → IsSession (insert_key w key s c).session
unfolding insert_key
insert_key-IsSession w key s c names k h = ground (
  arith,
  insert_escape-IsSession w s c k h,
  enter-IsSession w s c h,
  complete_mention-IsSession w s names h,
  empty-IsLine max_message_len,
  remove_last_char-IsLine max_message_len s.input h.input,
  remove_last_word-IsLine max_message_len s.input h.input,
)

normal_digit-IsSession :
    (w : World) (digit : ℕ) (s : Session) (c : Channel)
    → IsSession s
    → IsSession (normal_digit w digit s c)
unfolding normal_digit normal_scroll_by normal_scroll_to_latest
normal_digit-IsSession w digit s [] h = h
normal_digit-IsSession w digit s (timeout ∷ c) h = h
normal_digit-IsSession w digit s (byte b ∷ c) h = ground arith

normal_bracket-IsSession :
    (w : World) (s : Session) (c : Channel) → IsSession s → IsSession (normal_bracket w s c).session
unfolding normal_bracket normal_scroll_by normal_scroll_to_latest
normal_bracket-IsSession w s [] h = h
normal_bracket-IsSession w s (timeout ∷ c) h = h
normal_bracket-IsSession w s (byte b ∷ c) h = ground (arith, normal_digit-IsSession w b s c h)

normal_escape-IsSession :
    (w : World) (s : Session) (c : Channel) → IsSession s → IsSession (normal_escape w s c).session
unfolding normal_escape
normal_escape-IsSession w s [] h = h
normal_escape-IsSession w s (timeout ∷ c) h = h
normal_escape-IsSession w s (byte b ∷ c) h = ground (arith, normal_bracket-IsSession w s c h)

-- "search ", which `/` types.
search-IsLine : IsLine 256 (codes "search ")
search-IsLine = record {
  text = record { points = codes "search "; scalars = omega arith; spells = refl };
  printable = omega arith;
  within = omega arith;
}

normal_key-IsSession :
    (w : World) (key : ℕ) (s : Session) (c : Channel)
    → IsSession s
    → IsSession (normal_key w key s c).session
unfolding normal_key normal_scroll_by normal_enter_insert normal_scroll_to_latest
normal_key-IsSession w key s c h =
    ground (arith, normal_escape-IsSession w s c h, empty-IsLine 256, search-IsLine)

command_up-IsSession : (s : Session) → IsSession s → IsSession (command_up s)
unfolding command_up
command_up-IsSession s h = ground (
  arith,
  get_or-IsLine 256 s.command_history (s.command_history_pos - 1) (omega arith) h.commands.lines,
)

command_down-IsSession : (s : Session) → IsSession s → IsSession (command_down s)
unfolding command_down
command_down-IsSession s h = ground (
  arith,
  empty-IsLine 256,
  get_or-IsLine 256 s.command_history (s.command_history_pos + 1) (omega arith) h.commands.lines,
)

command_escape-IsSession :
    (s : Session) (c : Channel) → IsSession s → IsSession (command_escape s c).session
unfolding command_escape command_bracket
command_escape-IsSession s [] h = ground (arith, empty-IsLine 256)
command_escape-IsSession s (timeout ∷ c) h = ground (arith, empty-IsLine 256)
command_escape-IsSession s (byte b ∷ []) h = ground (arith, empty-IsLine 256)
command_escape-IsSession s (byte b ∷ timeout ∷ c) h = ground (arith, empty-IsLine 256)
command_escape-IsSession s (byte b ∷ byte d ∷ c) h =
    ground (arith, empty-IsLine 256, command_up-IsSession s h, command_down-IsSession s h)

command_tab_complete-IsSession :
    (w : World) (s : Session)
    → All IsPlainName w.usernames
    → IsSession s
    → IsSession (command_tab_complete w s).0
command_tab_complete-IsSession w s names h = rw (command_tab_complete_only w s) (record {
  input = h.input;
  sent = h.sent;
  sent_pos = h.sent_pos;
  typed = command_tab_complete-IsLine w s names h.typed;
  commands = h.commands;
  command_pos = h.command_pos;
})

command_key-IsSession :
    (w : World) (key : ℕ) (s : Session) (c : Channel)
    → All IsPlainName w.usernames
    → key ≢ 13
    → key ≢ 10
    → IsSession s
    → IsSession (command_key w key s c).session
unfolding command_key
command_key-IsSession w key s c names no_return no_feed h = ground (
  arith,
  command_escape-IsSession s c h,
  command_tab_complete-IsSession w s names h,
  empty-IsLine 256,
  remove_last_char-IsLine 256 s.command_input h.typed,
  remove_last_word-IsLine 256 s.command_input h.typed,
)

help_key-IsSession :
    (key : ℕ) (s : Session) (c : Channel) → IsSession s → IsSession (help_key key s c).session
unfolding help_key
help_key-IsSession key s c h = ground arith

output_key-IsSession :
    (w : World) (key : ℕ) (s : Session) (c : Channel)
    → IsSession s
    → IsSession (output_key w key s c).session
unfolding output_key dismiss_command_output normal_enter_insert normal_scroll_to_latest
    refresh_active_output
output_key-IsSession w key s c h = ground arith

mode_key-IsSession :
    (w : World) (key : ℕ) (s : Session) (c : Channel)
    → All IsPlainName w.usernames
    → All IsReadByte c
    → (IsEnter key → s.mode ≢ command)
    → IsSession s
    → IsSession (mode_key w key s c).session
unfolding mode_key
mode_key-IsSession w key s c names k other h = ground (
  arith,
  insert_key-IsSession w key s c names k h,
  normal_key-IsSession w key s c h,
  λ (m : s.mode ≡ command).
      command_key-IsSession w key s c names (λ e. other (inl e) m) (λ e. other (inr e) m) h,
)

-- Where all names of the room are ASCII and fit their field, no key in any mode, and no bytes behind
-- it, breaks the session, unless it is Enter in COMMAND mode, which runs a command: both lines stay
-- printable UTF-8 with room for their NUL, both histories keep at most sixteen such lines, and both
-- positions stay within their history.
pub handle_key-IsSession :
    (w : World) (key : ℕ) (s : Session) (c : Channel)
    → All IsPlainName w.usernames
    → All IsReadByte c
    → (IsEnter key → s.mode ≢ command)
    → IsSession s
    → IsSession (handle_key w key s c).session
unfolding handle_key
handle_key-IsSession w key s c names k other h = ground (
  arith,
  ctrl_c-IsSession w s h,
  help_key-IsSession key s c h,
  output_key-IsSession w key s c h,
  mode_key-IsSession w key s c names k other h,
)
