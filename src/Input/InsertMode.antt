-- ===== src/Input/InsertMode.antt =====
-- src/input.c: the keys of the INSERT mode in `handle_key`.
use tnt.Base.{
  ℕ, zero, suc, ◌+◌, ◌-◌, Bool, not, ◌&&◌, ◌||◌, Option, none, some, List, [], ◌∷◌, ◌++◌, ltb, leb,
  ◌==◌, if◌then◌else◌, length, get_or, take, drop, Bytes, char_at, equal, codes,
}
use tnt.Utf8.{remove_last_char, remove_last_word}
use tnt.Room.{Message}
use tnt.CommandCatalog.{has_prefix}
use tnt.Input.Channel.{byte, timeout, Channel}
use tnt.MessageLog.{max_message_len}
use tnt.Input.Paste.{bracketed_paste}
use tnt.Input.Session.{
  Session, World, Outcome, normal, consume, ignore, save, broadcast, notify_mentions,
  publish_message_created, bell, normal_scroll_to_latest,
}

abbrev pub max_hist : ℕ
max_hist = 16

-- A line at the end of a history, of which the oldest goes if it is full.
unfoldable pub remember : List Bytes → Bytes → List Bytes
remember history line =
    (if leb max_hist (length history) then take (max_hist - 1) (drop 1 history) else history)
    ++ line ∷ []

-- Whether the line is an action, "/me " and something.
abbrev pub is_action : Bytes → Bool
is_action input = equal (take 4 input) (codes "/me ") && ltb 4 (length input)

-- The message of a line, its content cut to the field.
unfoldable pub line_message : World → Session → Message
line_message w s =
    if is_action s.input
    then record {
      timestamp = w.now;
      username = codes "*";
      content = take (max_message_len - 1) (s.username ++ (b' ' ∷ drop 4 s.input));
    }
    else record { timestamp = w.now; username = s.username; content = s.input }

unfoldable pub enter : World → Session → Channel → Outcome
unfolding remember line_message
enter w s c =
    let history = remember s.insert_history s.input in
    let msg = line_message w s in
    if length s.input == 0
    then consume s [] c
    else consume
        (record s { input = []; insert_history = history; insert_history_pos = length history })
        (if w.saved
          then save msg
            ∷ broadcast msg
            ∷ notify_mentions msg.content
            ∷ publish_message_created msg
            ∷ []
          else save msg ∷ [])
        c

-- Up and Down
unfoldable pub history_up : Session → Session
history_up s =
    if ltb 0 (length s.insert_history) && ltb 0 s.insert_history_pos
    then record s {
      insert_history_pos = s.insert_history_pos - 1;
      input = get_or s.insert_history (s.insert_history_pos - 1) [];
    }
    else s

unfoldable pub history_down : Session → Session
history_down s =
    if ltb (s.insert_history_pos + 1) (length s.insert_history)
    then record s {
      insert_history_pos = s.insert_history_pos + 1;
      input = get_or s.insert_history (s.insert_history_pos + 1) [];
    }
    else record s { insert_history_pos = length s.insert_history; input = [] }

-- The `@` that starts the last word, below position `i`.
unfoldable pub mention_below : ℕ → Bytes → Option ℕ
mention_below zero input = none
mention_below (suc i) input =
    let before = mention_below i input in
    let c = char_at input i in
    if c == b'@'
    then if i == 0 || char_at input (i - 1) == b' ' then some i else none
    else if c == b' '
    then none
    else before

unfoldable pub first_match : Bytes → Bytes → List Bytes → Bytes
first_match own prefix [] = []
first_match own prefix (name ∷ names) =
    let fits = if length prefix == 0 then not (equal name own) else has_prefix name prefix in
    if fits then name else first_match own prefix names

-- Tab
unfoldable pub complete_mention : World → Session → Session
complete_mention w s = elim (mention_below (length s.input) s.input) [
  | none ↦ s
  | some at ↦
      let name = first_match s.username (drop (at + 1) s.input) w.usernames in
      if length name == 0
      then s
      else if leb (length name + 1) (max_message_len - 1 - at - 1)
      then record s { input = take (at + 1) s.input ++ (name ++ b' ' ∷ []) }
      else s
]

-- ESC that starts nothing known
abbrev pub leave_insert : World → Session → Channel → Outcome
leave_insert w s c = consume (normal_scroll_to_latest w (record s { mode = normal })) [] c

-- Behind `ESC [`
unfoldable pub insert_bracket : World → Session → Channel → Outcome
insert_bracket w s [] = leave_insert w s []
insert_bracket w s (timeout ∷ c) = leave_insert w s c
insert_bracket w s (byte b ∷ c) =
    let (input, rung, c') = bracketed_paste s.input c in
    if b == b'A'
    then consume (history_up s) [] c
    else if b == b'B'
    then consume (history_down s) [] c
    else if b == b'2'
    then consume (record s { input = input }) (if rung then bell ∷ [] else []) c'
    else leave_insert w s c

unfoldable pub insert_escape : World → Session → Channel → Outcome
insert_escape w s [] = leave_insert w s []
insert_escape w s (timeout ∷ c) = leave_insert w s c
insert_escape w s (byte b ∷ c) = if b == b'[' then insert_bracket w s c else leave_insert w s c

-- Every key that the mode does not know is left for the caller, which types it.
unfoldable pub insert_key : World → ℕ → Session → Channel → Outcome
insert_key w key s c =
    if key == 27
    then insert_escape w s c
    else if key == 13 || key == 10
    then enter w s c
    else if key == 127 || key == 8
    then consume (record s { input = remove_last_char s.input }) [] c
    else if key == 23
    then consume (record s { input = remove_last_word s.input }) [] c
    else if key == 21
    then consume (record s { input = [] }) [] c
    else if key == 9
    then consume (complete_mention w s) [] c
    else ignore s c
