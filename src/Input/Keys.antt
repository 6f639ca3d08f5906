-- ===== src/Input/Keys.antt =====
-- src/input.c: `handle_key`, the keys over every mode, the help and the output of a command.
pub mod Modes
pub mod Invariant
use tnt.Base.{ℕ, Bool, true, false, not, ◌||◌, [], ◌∷◌, ◌==◌, if◌then◌else◌, length}
use tnt.Base.Int.{pos}
use tnt.Input.Channel.{Channel}
use tnt.Input.Pager.{PagerAction, stay, scroll, close, refresh, pager_apply_key}
use tnt.Input.Session.{
  Session, World, Outcome, Mode, insert, normal, command, consume, next_ui_lang,
  refresh_active_output, ctrl_c, dismiss_command_output,
}
use tnt.Input.InsertMode.{insert_key}
use tnt.Input.NormalMode.{normal_key}
use tnt.Input.CommandMode.{command_key}

-- The help screen
unfoldable pub help_key : ℕ → Session → Channel → Outcome
help_key key s c =
    let (action, scroll_pos, c') = pager_apply_key s.height key s.help_scroll_pos false c in
    let scrolled = record s { help_scroll_pos = scroll_pos } in
    if key == b'l' || key == b'L'
    then consume (record s { help_scroll_pos = pos 0 }) (next_ui_lang ∷ []) c
    else elim action [
      | close ↦ consume (record scrolled { show_help = false }) [] c'
      | scroll ↦ consume scrolled [] c'
      | stay ↦ consume scrolled [] c'
      | refresh ↦ consume scrolled [] c'
    ]

-- The output of a command, or the notice of the day
unfoldable pub output_key : World → ℕ → Session → Channel → Outcome
output_key w key s c =
    let (action, scroll_pos, c') = pager_apply_key s.height key s.command_output_scroll true c in
    let scrolled = record s { command_output_scroll = scroll_pos } in
    if s.show_motd then consume (dismiss_command_output w s) [] c else elim action [
      | close ↦ consume (dismiss_command_output w scrolled) [] c'
      | refresh ↦ consume (refresh_active_output w scrolled) [] c'
      | scroll ↦ consume scrolled [] c'
      | stay ↦ consume scrolled [] c'
    ]

unfoldable pub mode_key : World → ℕ → Session → Channel → Outcome
mode_key w key s c = elim s.mode [
  | insert ↦ insert_key w key s c
  | normal ↦ normal_key w key s c
  | command ↦ command_key w key s c
]

unfoldable pub handle_key : World → ℕ → Session → Channel → Outcome
handle_key w key s c =
    if key == 3
    then consume (ctrl_c w s) [] c
    else if s.show_help
    then help_key key s c
    else if not (length s.command_output == 0)
    then output_key w key s c
    else mode_key w key s c
