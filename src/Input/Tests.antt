-- ===== src/Input/Tests.antt =====
-- The theorems on the keys at concrete sessions and channels.
use tnt.Base.{
  none, equal, ◌+◌, ℕ, contains, true, false, [], ◌∷◌, ◌++◌, codes, length, ◌≡◌, inl, refl, arith,
}
use tnt.Base.Int.{pos}
use tnt.Utf8.Spec.{encode_all}
use tnt.Common.{is_valid_username, valid_chars}
use tnt.Utf8.{strlen, strlen_from, decode, byte_length}
use tnt.InputBuffer.Feed.{IsLine}
use tnt.Input.Channel.{byte, timeout, sent}
use tnt.MessageLog.{max_message_len}
use tnt.Input.Paste.{bracketed_paste, paste, end_marker}
use tnt.Input.Paste.Framing.{bracketed_paste-text, paste-lost_marker}
use tnt.Input.Username.{read_username, name_loop, name_key, choose_name}
use tnt.Input.Username.Accepted.{IsName, read_username-IsName}
use tnt.Input.CommandLine.Ascii.{IsPlainName}
use tnt.Input.Session.{
  Session, World, insert, normal, save, broadcast, notify_mentions, publish_message_created,
}
use tnt.Input.InsertMode.{remember}
use tnt.Input.Keys.Invariant.{IsSession}
use tnt.Input.Typing.{read_key, rounds}
use tnt.Input.Typing.Invariant.{read_key-IsSession}
use tnt.Input.Typing.Line.{sent_message, rounds-sent}
use tnt.Input.Keys.Modes.{interrupted, interrupted-disconnects}

abbrev world : World
world = record {
  now = pos 1000;
  saved = true;
  visible_count = pos 3;
  usernames = codes "bob" ∷ codes "ann" ∷ [];
  available = λ c. 3;
  dispatch = λ s. record s { mode = normal; command_input = [] };
  inbox = none;
}

-- "hi @a" is typed, with one line sent before.
abbrev session : Session
session = record {
  mode = insert;
  connected = true;
  show_help = false;
  help_scroll_pos = pos 0;
  command_output = [];
  command_output_scroll = pos 0;
  show_motd = false;
  view = record { scroll_pos = pos 0; follow_tail = true };
  height = pos 24;
  username = codes "bob";
  unread_mentions = 0;
  input = codes "hi @a";
  insert_history = codes "hello" ∷ [];
  insert_history_pos = 1;
  command_input = [];
  command_history = [];
  command_history_pos = 0;
}

-- The same in NORMAL mode.
abbrev resting : Session
resting = record session { mode = normal }

hello-IsLine : IsLine max_message_len (codes "hello")
hello-IsLine = record {
  text = record { points = codes "hello"; scalars = omega arith; spells = refl };
  printable = omega arith;
  within = omega arith;
}

typed-IsLine : IsLine max_message_len (codes "hi @a")
typed-IsLine = record {
  text = record { points = codes "hi @a"; scalars = omega arith; spells = refl };
  printable = omega arith;
  within = omega arith;
}

bob-IsPlainName : IsPlainName (codes "bob")
bob-IsPlainName = record { bytes = omega arith; short = omega arith }

ann-IsPlainName : IsPlainName (codes "ann")
ann-IsPlainName = record { bytes = omega arith; short = omega arith }

session-IsSession : IsSession session
session-IsSession = record {
  input = typed-IsLine;
  sent = record { lines = (hello-IsLine, tt); count = omega arith };
  sent_pos = omega arith;
  typed = record {
    text = record { points = []; scalars = tt; spells = refl };
    printable = tt;
    within = omega arith;
  };
  commands = record { lines = tt; count = omega arith };
  command_pos = omega arith;
}

-- The first byte of a sequence of three, with the others to be read
read_key-IsSession_example : IsSession (read_key world 0xE4 session (byte 0xBD ∷ byte 0xA0 ∷ [])).0
read_key-IsSession_example =
    read_key-IsSession world 0xE4 session (byte 0xBD ∷ byte 0xA0 ∷ []) (omega arith)
      (bob-IsPlainName, (ann-IsPlainName, tt)) (omega arith, (omega arith, tt)) (λ e. omega arith)
      session-IsSession

-- Nothing is typed yet.
abbrev ready : Session
ready = record session { input = [] }

rounds-sent_example :
    let text = encode_all (0x4F60 ∷ 33 ∷ []) in
    let msg = sent_message world ready text in
    rounds (length {A = ℕ} (0x4F60 ∷ 33 ∷ []) + 1) world ready (sent text ++ byte 13 ∷ []) ≡ (
      record ready {
        input = [];
        insert_history = remember ready.insert_history text;
        insert_history_pos = length (remember ready.insert_history text);
      },
      save msg ∷ broadcast msg ∷ notify_mentions text ∷ publish_message_created msg ∷ [],
      [],
    )
unfolding equal
rounds-sent_example =
    rounds-sent world ready (0x4F60 ∷ 33 ∷ []) [] (λ c. omega arith)
      (record { mode = refl; help = refl; bare = refl; connected = refl }) refl
      (
        ((omega arith, omega arith, inl (omega arith)), omega arith, λ e. omega arith),
        (((omega arith, omega arith, inl (omega arith)), omega arith, λ e. omega arith), tt),
      )
      (omega arith) (omega arith) refl refl

interrupted-disconnects_example :
    (interrupted world
      (interrupted world (interrupted world (interrupted world session)))).connected
    ≡ false
interrupted-disconnects_example = interrupted-disconnects world session

read_username-IsName_example : IsName true (codes "bo")
unfolding read_username name_loop name_key choose_name is_valid_username valid_chars strlen
    strlen_from decode byte_length contains
read_username-IsName_example =
    read_username-IsName (λ c. 3) true
      (byte b'x' ∷ byte 21 ∷ timeout ∷ byte b'b' ∷ byte b'o' ∷ byte 13 ∷ byte b'x' ∷ [])
      (codes "bo") (byte b'x' ∷ [])
      (
        omega arith,
        (omega arith, (tt, (omega arith, (omega arith, (omega arith, (omega arith, tt)))))),
      )
      refl

-- Two lines are pasted as one.
bracketed_paste-text_example :
    bracketed_paste
      (codes "hi ")
      (sent (codes "00~") ++ (sent (97 ∷ 10 ∷ 98 ∷ []) ++ (sent (27 ∷ end_marker) ++ byte 13 ∷ [])))
    ≡ (codes "hi " ++ encode_all (97 ∷ 32 ∷ 98 ∷ []), false, byte 13 ∷ [])
bracketed_paste-text_example =
    bracketed_paste-text (codes "hi ") (97 ∷ 10 ∷ 98 ∷ []) (97 ∷ 32 ∷ 98 ∷ []) (byte 13 ∷ [])
      (λ e. omega arith, (λ e. omega arith, (λ e. omega arith, tt))) refl
      (
        ((omega arith, omega arith, inl (omega arith)), omega arith, λ e. omega arith),
        (
          ((omega arith, omega arith, inl (omega arith)), omega arith, λ e. omega arith),
          (((omega arith, omega arith, inl (omega arith)), omega arith, λ e. omega arith), tt),
        ),
      )
      (omega arith)

-- The line end that is typed behind the paste is lost in it.
paste-lost_marker_example :
    (paste
      (codes "hi ")
      (sent (27 ∷ 97 ∷ []) ++ (sent (27 ∷ end_marker) ++ (sent (98 ∷ 13 ∷ []) ++ [])))).2
    ≡ []
paste-lost_marker_example =
    paste-lost_marker (codes "hi ") (97 ∷ []) (98 ∷ 13 ∷ []) (λ e. omega arith, tt)
      (λ e. omega arith, (λ e. omega arith, tt)) (omega arith)

-- Two users whose names, of one code point each, are the same in their first two bytes
abbrev neighbours : World
neighbours = record world { usernames = (0xE4 ∷ 0xBD ∷ 0xA0 ∷ []) ∷ (0xE4 ∷ 0xBD ∷ 0xA2 ∷ []) ∷ [] }
