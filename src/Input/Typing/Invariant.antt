-- ===== src/Input/Typing/Invariant.antt =====
-- No byte from the terminal breaks a session: what `handle_key` leaves is typed, as printable UTF-8.
use tnt.Base.{
  ◌≢◌, ℕ, ◌-◌, ◌≤◌, ◌<◌, true, false, [], ◌∷◌, Bytes, ◌≡◌, refl, arith, All, Bool-cases, inl, inr,
}
use tnt.Utf8.{byte_length}
use tnt.Utf8.Erase.{valid_sequence-high}
use tnt.MessageLog.{max_message_len}
use tnt.InputBuffer.Feed.{IsLine, append_ascii-IsLine, append_utf8_sequence-IsLine}
use tnt.Input.Channel.{byte, timeout, Channel, read_once, IsReadByte, read_once-IsByte}
use tnt.Input.CommandLine.Ascii.{IsPlainName}
use tnt.Input.Session.{command, Session, World, Outcome}
use tnt.Input.InsertMode.{insert_key, insert_escape, insert_bracket, enter}
use tnt.Input.NormalMode.{normal_key, normal_escape, normal_bracket}
use tnt.Input.CommandMode.{IsEnter, command_key, command_escape, command_bracket}
use tnt.Input.Keys.{handle_key, help_key, output_key, mode_key}
use tnt.Input.Keys.Invariant.{IsSession, handle_key-IsSession}
use tnt.Input.Typing.{type_sequence, type_byte, type_key, read_key}

insert_escape-consumed :
    (w : World) (s : Session) (c : Channel) → (insert_escape w s c).consumed ≡ true
unfolding insert_escape insert_bracket
insert_escape-consumed w s [] = refl
insert_escape-consumed w s (timeout ∷ c) = refl
insert_escape-consumed w s (byte b ∷ []) = ground arith
insert_escape-consumed w s (byte b ∷ timeout ∷ c) = ground arith
insert_escape-consumed w s (byte b ∷ byte d ∷ c) = ground arith

normal_escape-consumed :
    (w : World) (s : Session) (c : Channel) → (normal_escape w s c).consumed ≡ true
unfolding normal_escape normal_bracket
normal_escape-consumed w s [] = refl
normal_escape-consumed w s (timeout ∷ c) = refl
normal_escape-consumed w s (byte b ∷ []) = ground arith
normal_escape-consumed w s (byte b ∷ timeout ∷ c) = ground arith
normal_escape-consumed w s (byte b ∷ byte d ∷ c) = ground arith

command_escape-consumed : (s : Session) (c : Channel) → (command_escape s c).consumed ≡ true
unfolding command_escape command_bracket
command_escape-consumed s [] = refl
command_escape-consumed s (timeout ∷ c) = refl
command_escape-consumed s (byte b ∷ []) = ground arith
command_escape-consumed s (byte b ∷ timeout ∷ c) = ground arith
command_escape-consumed s (byte b ∷ byte d ∷ c) = ground arith

pub enter-consumed : (w : World) (s : Session) (c : Channel) → (enter w s c).consumed ≡ true
unfolding enter
enter-consumed w s c = ground arith

help_key-consumed : (key : ℕ) (s : Session) (c : Channel) → (help_key key s c).consumed ≡ true
unfolding help_key
help_key-consumed key s c = ground arith

output_key-consumed :
    (w : World) (key : ℕ) (s : Session) (c : Channel) → (output_key w key s c).consumed ≡ true
unfolding output_key
output_key-consumed w key s c = ground arith

-- What is left of a key that is not consumed
record IsIgnored (s : Session) (c : Channel) (o : Outcome) : Type 0 where
  same : o.session ≡ s
  silent : o.effects ≡ []
  unread : o.rest ≡ c

-- A key that is not consumed changes nothing and reads nothing.
handle_key-IsIgnored :
    (w : World) (key : ℕ) (s : Session) (c : Channel)
    → (handle_key w key s c).consumed ≡ false
    → IsIgnored s c (handle_key w key s c)
unfolding handle_key mode_key insert_key normal_key command_key
handle_key-IsIgnored w key s c h = ground (
  arith,
  help_key-consumed key s c,
  output_key-consumed w key s c,
  insert_escape-consumed w s c,
  enter-consumed w s c,
  normal_escape-consumed w s c,
  command_escape-consumed s c,
)

type_sequence-IsLine :
    (w : World) (line : Bytes) (size b : ℕ) (c : Channel)
    → IsLine size line
    → 128 ≤ b
    → b < 256
    → All IsReadByte c
    → IsLine size (type_sequence w line size b c).0
unfolding type_sequence
type_sequence-IsLine w line size b c h high byte_b reads =
    let len = byte_length b in
    let (rest, c') = read_once w.available (len - 1) c in
    let (bytes, reads') = read_once-IsByte w.available (len - 1) c reads in
    let whole : All (λ x. x < 256) (b ∷ rest) = (byte_b, bytes) in
    ground (
      arith,
      valid_sequence-high b rest len high whole,
      append_utf8_sequence-IsLine line size (b ∷ rest) h whole,
    )

type_byte-IsLine :
    (w : World) (line : Bytes) (size b : ℕ) (c : Channel)
    → IsLine size line
    → b < 256
    → All IsReadByte c
    → IsLine size (type_byte w line size b c).0
unfolding type_byte
type_byte-IsLine w line size b c h byte_b reads = ground (
  arith,
  append_ascii-IsLine line size b h,
  λ (high : 128 ≤ b). type_sequence-IsLine w line size b c h high byte_b reads,
)

type_key-IsSession :
    (w : World) (b : ℕ) (s : Session) (c : Channel)
    → b < 256
    → All IsReadByte c
    → IsSession s
    → IsSession (type_key w b s c).0
unfolding type_key
type_key-IsSession w b s c byte_b reads h = ground (
  arith,
  type_byte-IsLine w s.input max_message_len b c h.input byte_b reads,
  type_byte-IsLine w s.command_input 256 b c h.typed byte_b reads,
)

-- Where all names of the room are ASCII and fit their field, no byte from the terminal, in any mode
-- and whatever is shown, no bytes that are read behind it, and no short read of them, break the
-- session, unless the byte is Enter in COMMAND mode, which runs a command: both lines stay printable
-- UTF-8 with room for their NUL, both histories keep at most sixteen such lines, and both positions
-- stay within their history.
pub read_key-IsSession :
    (w : World) (b : ℕ) (s : Session) (c : Channel)
    → b < 256
    → All IsPlainName w.usernames
    → All IsReadByte c
    → (IsEnter b → s.mode ≢ command)
    → IsSession s
    → IsSession (read_key w b s c).0
unfolding read_key
read_key-IsSession w b s c byte_b names reads other h =
    let handled = handle_key w b s c in
    let after = handle_key-IsSession w b s c names reads other h in
    elim (Bool-cases handled.consumed) [
      | inl consumed ↦ rw consumed after
      | inr left ↦
          let ignored = handle_key-IsIgnored w b s c left in
          rw (left, ignored.unread) (type_key-IsSession w b handled.session c byte_b reads after)
    ]
