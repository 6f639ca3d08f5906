-- ===== src/Input/Typing.antt =====
-- src/input.c: what one byte from the terminal does in the loop of `input_run_session`, behind
-- `ssh_channel_read`: `handle_key`, and the typing of a byte that it does not consume.
pub mod Invariant
pub mod Line
use tnt.Base.{
  ℕ, zero, suc, ◌-◌, Bool, true, false, not, ◌&&◌, ◌||◌, List, [], ◌∷◌, ◌++◌, leb, ltb, ◌==◌,
  if◌then◌else◌, length, Bytes,
}
use tnt.Utf8.{byte_length, is_valid_sequence}
use tnt.MessageLog.{max_message_len}
use tnt.InputBuffer.{Status, append_ascii, append_utf8_sequence}
use tnt.Input.Channel.{Read, byte, timeout, Channel, read_once}
use tnt.Input.Session.{Session, World, Outcome, Effect, Mode, insert, normal, command, bell}
use tnt.Input.Keys.{handle_key}

-- The line behind a byte, the calls, and what is left to read
abbrev pub Typed : Type 0
Typed = Bytes × List Effect × Channel

-- A status other than `TNT_INPUT_APPEND_OK` rings the bell.
abbrev pub appended : Bytes × Status → Channel → Typed
appended (line, status) c =
    (line, (if status.ignored || status.overflow || status.invalid_utf8 then bell ∷ [] else []), c)

-- A byte from 128 on: one read takes the rest of its sequence; where not all of it has arrived, the
-- bytes are dropped.
unfoldable pub type_sequence : World → Bytes → ℕ → ℕ → Channel → Typed
type_sequence w line size b c =
    let char_len = byte_length b in
    let (rest, c') = read_once w.available (char_len - 1) c in
    if leb char_len 0 || ltb 4 char_len
    then (line, [], c)
    else if not (length rest == char_len - 1)
    then (line, [], c')
    else if not (is_valid_sequence (b ∷ rest) char_len)
    then (line, [], c')
    else appended (append_utf8_sequence line size (b ∷ rest)) c'

unfoldable pub type_byte : World → Bytes → ℕ → ℕ → Channel → Typed
type_byte w line size b c =
    if leb 32 b && ltb b 127
    then appended (append_ascii line size b) c
    else if leb 128 b
    then type_sequence w line size b c
    else (line, [], c)

-- The branch for a byte that is not consumed
unfoldable pub type_key : World → ℕ → Session → Channel → Session × List Effect × Channel
type_key w b s c =
    let (input, rung, c') = type_byte w s.input max_message_len b c in
    let (command_input, command_rung, command_c') = type_byte w s.command_input 256 b c in
    if s.show_help || not (length s.command_output == 0) then (s, [], c) else elim s.mode [
      | insert ↦ (record s { input = input }, rung, c')
      | command ↦ (record s { command_input = command_input }, command_rung, command_c')
      | normal ↦ (s, [], c)
    ]

unfoldable pub read_key : World → ℕ → Session → Channel → Session × List Effect × Channel
read_key w b s c =
    let handled = handle_key w b s c in
    let (s', effects, c') = type_key w b handled.session handled.rest in
    if handled.consumed
    then (handled.session, handled.effects, handled.rest)
    else (s', handled.effects ++ effects, c')

-- So many rounds of the loop of `input_run_session` in which a byte is there to be read
unfoldable pub rounds : ℕ → World → Session → Channel → Session × List Effect × Channel
rounds zero w s c = (s, [], c)
rounds (suc n) w s [] = (s, [], [])
rounds (suc n) w s (timeout ∷ c) = (s, [], timeout ∷ c)
rounds (suc n) w s (byte b ∷ c) =
    let (s', effects, c') = read_key w b s c in
    let (s'', more, c'') = rounds n w s' c' in
    if s.connected then (s'', effects ++ more, c'') else (s, [], byte b ∷ c)
