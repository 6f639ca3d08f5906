-- ===== src/Input/Session.antt =====
-- src/input.c: the state that the keys of a session work on, and the small functions that the modes
-- share. What is drawn is left out; the calls of other parts are listed in order. Those that answer
-- take the answer from the world: whether `message_save` succeeded, the time, and what is in the
-- room.
use tnt.Base.{
  Option, none, some, ℕ, Bool, true, false, not, List, [], ◌==◌, if◌then◌else◌, length, Bytes,
}
use tnt.Base.Int.{ℤ, pos}
use tnt.Room.{Message}
use tnt.HistoryView.{View}
use tnt.HistoryView
use tnt.Input.Channel.{Channel}

-- `client_mode_t`
pub data Mode : Type 0 where
  insert : Mode
  normal : Mode
  command : Mode

-- The fields of `client_t` that the keys work on, and the line `input`. A history is the list of its
-- lines, the oldest first, so its count is the length.
pub record Session : Type 0 where
  pub mode : Mode
  pub connected : Bool
  pub show_help : Bool
  pub help_scroll_pos : ℤ
  pub command_output : Bytes
  pub command_output_scroll : ℤ
  pub show_motd : Bool
  pub view : View
  pub height : ℤ
  pub username : Bytes
  pub unread_mentions : ℕ
  pub input : Bytes
  pub insert_history : List Bytes
  pub insert_history_pos : ℕ
  pub command_input : Bytes
  pub command_history : List Bytes
  pub command_history_pos : ℕ

-- What a key reads of the rest of the server, and what the commands do. `available` is how many bytes
-- one read finds on the channel, `dispatch` what `commands_dispatch` of src/commands.c makes of the
-- session, `inbox` the output that `commands_refresh_active_output` has for it, if the session shows
-- its inbox.
pub record World : Type 0 where
  pub now : ℤ
  pub saved : Bool
  pub visible_count : ℤ
  pub usernames : List Bytes
  pub available : Channel → ℕ
  pub dispatch : Session → Session
  pub inbox : Option Bytes

-- The calls of other parts, beside what they do to the session
pub data Effect : Type 0 where
  save : Message → Effect
  broadcast : Message → Effect
  notify_mentions : Bytes → Effect
  publish_message_created : Message → Effect
  commands_dispatch : Effect
  next_ui_lang : Effect
  bell : Effect

pub record Outcome : Type 0 where
  pub consumed : Bool
  pub session : Session
  pub effects : List Effect
  pub rest : Channel

abbrev pub consume : Session → List Effect → Channel → Outcome
consume s effects c = record { consumed = true; session = s; effects = effects; rest = c }

abbrev pub ignore : Session → Channel → Outcome
ignore s c = record { consumed = false; session = s; effects = []; rest = c }

unfoldable pub normal_scroll_to_latest : World → Session → Session
normal_scroll_to_latest w s = record s {
  view = HistoryView.scroll_to_latest s.view w.visible_count (HistoryView.height s.height);
}

unfoldable pub normal_scroll_by : World → Session → ℤ → Session
normal_scroll_by w s delta = record s {
  view = HistoryView.scroll_by s.view w.visible_count (HistoryView.height s.height) delta;
}

unfoldable pub normal_enter_insert : Session → Session
normal_enter_insert s = record s {
  mode = insert;
  view = record s.view { follow_tail = true };
  unread_mentions = 0;
}

unfoldable pub dismiss_command_output : World → Session → Session
unfolding normal_scroll_to_latest
dismiss_command_output w s =
    let bare = record s { command_output = []; command_output_scroll = pos 0; show_motd = false } in
    if s.show_motd
    then normal_scroll_to_latest w (normal_enter_insert bare)
    else record bare { mode = normal }

-- `commands_refresh_active_output`
unfoldable pub refresh_active_output : World → Session → Session
refresh_active_output w s = elim w.inbox [
  | none ↦ s
  | some output ↦ record s { command_output = output; command_output_scroll = pos 0 }
]

-- The branch for Ctrl+C
unfoldable pub ctrl_c : World → Session → Session
ctrl_c w s =
    let back = record s { mode = normal; command_input = []; show_help = false } in
    if s.show_help
    then record s { show_help = false }
    else if not (length s.command_output == 0)
    then dismiss_command_output w s
    else elim s.mode [
      | insert ↦ normal_scroll_to_latest w back
      | command ↦ back
      | normal ↦ record s { connected = false }
    ]
