-- ===== src/Input/Typing/Line.antt =====
-- What is typed is what is sent.
use tnt.Base.{
  ℕ, suc, ◌+◌, ◌-◌, ◌/◌, ◌%◌, ◌≤◌, ◌<◌, true, false, List, [], ◌∷◌, ◌++◌, ltb, length, Bytes, ◌≡◌,
  ◌≢◌, refl, sym, ap, ap₂, ◌∙◌, arith, All, if◌then◌else◌, Bool-cases, inl, inr, append-nil,
  append_assoc, length-append,
}
use tnt.Utf8.{byte_length, is_valid_sequence}
use tnt.Utf8.Spec.{IsScalar, encoding, encoded_length, encode_all}
use tnt.Utf8.Lead.{byte_length_lem}
use tnt.Utf8.Text.{length-encoding, encoded_length_bounds}
use tnt.Utf8.Valid.{valid_sequence-encoding}
use tnt.Room.{Message}
use tnt.MessageLog.{max_message_len}
use tnt.InputBuffer.{append_bytes, append_ascii, append_utf8_sequence}
use tnt.InputBuffer.Round.{IsPrintable}
use tnt.Input.Channel.{byte, Channel, sent, read_channel_exact}
use tnt.Input.Session.{
  Session, World, Effect, insert, consume, save, broadcast, notify_mentions,
  publish_message_created,
}
use tnt.Input.InsertMode.{insert_key, enter, remember, line_message, is_action}
use tnt.Input.Keys.{handle_key, mode_key}
use tnt.Input.Typing.Invariant.{enter-consumed}
use tnt.Input.Typing.{type_sequence, type_byte, type_key, read_key, rounds}

read-sent :
    (bytes : Bytes) (c : Channel) → read_channel_exact (length bytes) (sent bytes ++ c) ≡ (bytes, c)
read-sent [] c = refl
read-sent (b ∷ bytes) c = rw (read-sent bytes c) refl

sent-append : (a b : Bytes) (c : Channel) → sent (a ++ b) ++ c ≡ sent a ++ (sent b ++ c)
sent-append [] b c = refl
sent-append (x ∷ a) b c = ap (λ t. byte x ∷ t) (sent-append a b c)

-- The first byte of a code point, and the others
record Start (cp : ℕ) : Type 0 where
  first : ℕ
  others : Bytes
  spells : encoding cp ≡ first ∷ others
  high : 128 ≤ cp → 128 ≤ first
  ascii : cp < 128 → (first ≡ cp) × (others ≡ [])
  size : byte_length first ≡ encoded_length cp

start_ascii : (cp : ℕ) → IsScalar cp → cp < 0x80 → Start cp
start_ascii cp h one = record {
  first = cp;
  others = [];
  spells = ground arith;
  high = λ k. k;
  ascii = λ k. (refl, refl);
  size = ground (arith, byte_length_lem cp);
}

start_of : (cp : ℕ) → IsScalar cp → Start cp
start_of cp h = elim (Bool-cases (ltb cp 0x80)) [
  | inl one ↦ start_ascii cp h (ground arith)
  | inr more ↦ elim (Bool-cases (ltb cp 0x800)) [
    | inl two ↦ record {
      first = 0xC0 + cp / 64;
      others = (0x80 + cp % 64) ∷ [];
      spells = rw (more, two) refl;
      high = λ k. omega arith;
      ascii = λ k. absurd (ground arith);
      size = ground (arith, byte_length_lem (0xC0 + cp / 64));
    }
    | inr more' ↦ elim (Bool-cases (ltb cp 0x10000)) [
      | inl three ↦ record {
        first = 0xE0 + cp / 4096;
        others = (0x80 + cp / 64 % 64) ∷ (0x80 + cp % 64) ∷ [];
        spells = rw (more, more', three) refl;
        high = λ k. omega arith;
        ascii = λ k. absurd (ground arith);
        size = ground (arith, byte_length_lem (0xE0 + cp / 4096));
      }
      | inr four ↦ record {
        first = 0xF0 + cp / 262144;
        others = (0x80 + cp / 4096 % 64) ∷ (0x80 + cp / 64 % 64) ∷ (0x80 + cp % 64) ∷ [];
        spells = rw (more, more', four) refl;
        high = λ k. omega arith;
        ascii = λ k. absurd (ground arith);
        size = ground (arith, byte_length_lem (0xF0 + cp / 262144));
      }
    ]
  ]
]

-- One read finds all bytes of a character, however the rest arrives.
abbrev pub AreWhole : World → Type 0
AreWhole w = (c : Channel) → 3 ≤ w.available c

type_sequence_lem :
    (w : World) (whole : AreWhole w) (line : Bytes) (size b : ℕ) (others : Bytes) (c : Channel)
    → byte_length b ≡ length others + 1
    → length others < 4
    → is_valid_sequence (b ∷ others) (length others + 1) ≡ true
    → length line + (length others + 1) < size
    → type_sequence w line size b (sent others ++ c) ≡ (line ++ b ∷ others, [], c)
unfolding type_sequence append_utf8_sequence append_bytes
type_sequence_lem w whole line size b others c e few valid fits =
    let enough : ltb (w.available (sent others ++ c)) (length others) ≡ false =
      ground (arith, whole (sent others ++ c)) in
    let less : length others + 1 - 1 ≡ length others = omega arith in
    rw (e, less, enough, read-sent others c, valid) (ground arith)

-- A code point that is typed on a line with room for it stands at its end.
type_point :
    (w : World) (all : AreWhole w) (line : Bytes) (size cp : ℕ) (c : Channel) (p : IsPrintable cp)
    → length line + length (encoding cp) < size
    → let start = start_of cp p.0 in
      type_byte w line size start.first (sent start.others ++ c) ≡ (line ++ encoding cp, [], c)
unfolding type_byte append_ascii append_bytes
type_point w all line size cp c p fits =
    let start = start_of cp p.0 in
    let whole : encoded_length cp ≡ length start.others + 1 =
      omega (arith, ap length start.spells, length-encoding cp) in
    let valid : is_valid_sequence (start.first ∷ start.others) (length start.others + 1) ≡ true =
      ap₂ is_valid_sequence (sym start.spells ∙ sym (append-nil (encoding cp))) (sym whole)
      ∙ valid_sequence-encoding cp [] p.0 in
    let several =
      type_sequence_lem w all line size start.first start.others c (start.size ∙ whole)
        (omega (arith, encoded_length_bounds cp)) valid (omega (arith, length-encoding cp)) in
    elim (Bool-cases (ltb cp 128)) [
      | inl one ↦
          let (same, none_left) = start.ascii (ground arith) in
          rw (start.spells, same, none_left) (ground arith)
      | inr more ↦ let high = start.high (ground arith) in rw start.spells (ground arith)
    ]

-- A session whose keys are typed into the line
pub record IsTyping (s : Session) : Type 0 where
  pub mode : s.mode ≡ insert
  pub help : s.show_help ≡ false
  pub bare : length s.command_output ≡ 0
  pub connected : s.connected ≡ true

read_key-ignored :
    (w : World) (b : ℕ) (s : Session) (c : Channel)
    → IsTyping s
    → 32 ≤ b
    → b ≢ 127
    → read_key w b s c ≡ type_key w b s c
unfolding read_key handle_key mode_key insert_key
read_key-ignored w b s c t low high = rw (t.mode, t.help, t.bare) (ground arith)

type_key-typed :
    (w : World) (b : ℕ) (s : Session) (line : Bytes) (c c' : Channel)
    → IsTyping s
    → type_byte w s.input max_message_len b c ≡ (line, [], c')
    → type_key w b s c ≡ (record s { input = line }, [], c')
unfolding type_key
type_key-typed w b s line c c' t e = ground arith

read_point :
    (w : World) (all : AreWhole w) (s : Session) (cp : ℕ) (c : Channel) (p : IsPrintable cp)
    → IsTyping s
    → length s.input + length (encoding cp) < max_message_len
    → let start = start_of cp p.0 in
      read_key w start.first s (sent start.others ++ c)
      ≡ (record s { input = s.input ++ encoding cp }, [], c)
read_point w all s cp c p t fits =
    let start = start_of cp p.0 in
    let low : 32 ≤ start.first = ground (arith, start.ascii, start.high) in
    let plain : start.first ≢ 127 = λ e. ground (arith, start.ascii, start.high) in
    read_key-ignored w start.first s (sent start.others ++ c) t low plain
    ∙ type_key-typed w start.first s (s.input ++ encoding cp) (sent start.others ++ c) c t
        (type_point w all s.input max_message_len cp c p fits)

-- What the rounds behind another one do
abbrev behind : List Effect → Session × List Effect × Channel → Session × List Effect × Channel
behind effects (s, more, c) = (s, effects ++ more, c)

rounds_step :
    (n : ℕ) (w : World) (b : ℕ) (s s' : Session) (effects : List Effect) (c c' : Channel)
    → s.connected ≡ true
    → read_key w b s c ≡ (s', effects, c')
    → rounds (suc n) w s (byte b ∷ c) ≡ behind effects (rounds n w s' c')
unfolding rounds
rounds_step n w b s s' effects c c' h e =
    rw e (ap (λ t. if t then behind effects (rounds n w s' c') else (s, [], byte b ∷ c)) h)

-- A text that is typed stands at the end of the line.
rounds_text :
    (w : World) (all : AreWhole w) (s : Session) (cps : List ℕ) (n : ℕ) (c : Channel)
    → IsTyping s
    → All IsPrintable cps
    → length s.input + length (encode_all cps) < max_message_len
    → rounds (length cps + n) w s (sent (encode_all cps) ++ c)
      ≡ rounds n w (record s { input = s.input ++ encode_all cps }) c
unfolding rounds
rounds_text w all s [] n c t p fits =
    let count : length {A = ℕ} [] + n ≡ n = omega arith in rw (count, append-nil s.input) refl
rounds_text w all s (cp ∷ cps) n c t p fits =
    let start = start_of cp p.0.0 in
    let count : length (cp ∷ cps) + n ≡ suc (length cps + n) = omega arith in
    let s' = record s { input = s.input ++ encoding cp } in
    let later =
      rounds_text w all s' cps n c
        (record { mode = t.mode; help = t.help; bare = t.bare; connected = t.connected }) p.1
        (omega (
          arith,
          length-append s.input (encoding cp),
          length-append (encoding cp) (encode_all cps),
        )) in
    let rest = sent (encode_all cps) ++ c in
    let split : sent (encoding cp ++ encode_all cps) ++ c
        ≡ byte start.first ∷ (sent start.others ++ rest) =
      ap (λ t. sent (t ++ encode_all cps) ++ c) start.spells
      ∙ ap (λ t. byte start.first ∷ t) (sent-append start.others (encode_all cps) c) in
    let point =
      read_point w all s cp rest p.0 t
        (omega (arith, length-append (encoding cp) (encode_all cps))) in
    rw (count, split)
      (rounds_step (length cps + n) w start.first s s' [] (sent start.others ++ rest) rest
          t.connected point
        ∙ ap (behind []) later
        ∙ rw (append_assoc s.input (encoding cp) (encode_all cps)) refl)

read_key-enter :
    (w : World) (s : Session) (c : Channel)
    → IsTyping s
    → let sending = enter w s c in
      read_key w 13 s c ≡ (sending.session, sending.effects, sending.rest)
unfolding read_key handle_key mode_key insert_key
read_key-enter w s c t = ground (arith, enter-consumed w s c)

-- What Enter sends of a line
abbrev pub sent_message : World → Session → Bytes → Message
sent_message w s text = record { timestamp = w.now; username = s.username; content = text }

enter-sent :
    (w : World) (s : Session) (c : Channel)
    → 0 < length s.input
    → is_action s.input ≡ false
    → w.saved ≡ true
    → let msg = sent_message w s s.input in
      enter w s c
      ≡ consume
          (record s {
            input = [];
            insert_history = remember s.insert_history s.input;
            insert_history_pos = length (remember s.insert_history s.input);
          })
          (save msg ∷ broadcast msg ∷ notify_mentions s.input ∷ publish_message_created msg ∷ [])
          c
unfolding enter line_message
enter-sent w s c some plain saved = ground arith

-- Where one read finds all bytes of a character behind its first, a printable text that is typed on an
-- empty line in INSERT mode, with no help and no output shown, and fits it with its NUL, is what Enter
-- sends, byte for byte: it is saved, broadcast, looked through for mentions and published under the
-- name of the session, where it is no action and can be saved; the line is empty again, and the
-- history remembers the text. Nothing behind the line end is read.
pub rounds-sent :
    (w : World) (s : Session) (cps : List ℕ) (c : Channel)
    → AreWhole w
    → IsTyping s
    → s.input ≡ []
    → All IsPrintable cps
    → length (encode_all cps) < max_message_len
    → 0 < length (encode_all cps)
    → is_action (encode_all cps) ≡ false
    → w.saved ≡ true
    → let text = encode_all cps in
      let msg = sent_message w s text in
      rounds (length cps + 1) w s (sent text ++ byte 13 ∷ c) ≡ (
        record s {
          input = [];
          insert_history = remember s.insert_history text;
          insert_history_pos = length (remember s.insert_history text);
        },
        save msg ∷ broadcast msg ∷ notify_mentions text ∷ publish_message_created msg ∷ [],
        c,
      )
unfolding rounds
rounds-sent w s cps c all t empty p fits some plain saved =
    let text = encode_all cps in
    let s' = record s { input = text } in
    let typing : IsTyping s' = record {
      mode = t.mode;
      help = t.help;
      bare = t.bare;
      connected = t.connected;
    } in
    rounds_text w all s cps 1 (byte 13 ∷ c) t p (omega (arith, ap length empty))
    ∙ ap (λ i. rounds 1 w (record s { input = i ++ text }) (byte 13 ∷ c)) empty
    ∙ rounds_step 0 w 13 s' _ _ c c t.connected (
        read_key-enter w s' c typing
        ∙ ap (λ o. (o.session, o.effects, o.rest)) (enter-sent w s' c some plain saved))
