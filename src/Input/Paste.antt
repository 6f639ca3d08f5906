-- ===== src/Input/Paste.antt =====
-- src/input.c: a bracketed paste, `ESC[200~` to `ESC[201~`, in the INSERT branch of `handle_key`.
pub mod Framing
pub mod Line
use tnt.Base.{
  ℕ, zero, suc, ◌+◌, ◌≤◌, ◌<◌, Bool, true, false, not, ◌||◌, Option, none, some, List, [], ◌∷◌,
  ◌++◌, ◌==◌, if◌then◌else◌, length, Bytes, equal, codes, ◌≡◌, ◌≢◌, refl, ◌∙◌, ap, arith, All,
  append_assoc, append-nil, length-append,
}
use tnt.MessageLog.{max_message_len}
use tnt.InputBuffer.{Status, State, reset, append_stream_byte, state_finish, feed}
use tnt.Input.Channel.{Read, byte, timeout, Channel, sent, read_byte, read_channel_exact}

-- `input`, `paste_utf8`, `overflow` and `invalid_utf8`
pub record Paste : Type 0 where
  pub input : Bytes
  pub utf8 : State
  pub overflow : Bool
  pub invalid_utf8 : Bool

pub paste_byte : Paste → ℕ → Paste
paste_byte p b =
    let (input, state, status) = append_stream_byte p.input max_message_len p.utf8 b true in
    record {
      input = input;
      utf8 = state;
      overflow = p.overflow || status.overflow;
      invalid_utf8 = p.invalid_utf8 || status.invalid_utf8;
    }

pub paste_bytes : Paste → Bytes → Paste
paste_bytes p [] = p
paste_bytes p (b ∷ bytes) = paste_bytes (paste_byte p b) bytes

-- "[201~", which ends a paste behind an ESC
abbrev pub end_marker : Bytes
end_marker = codes "[201~"

-- The loop, with a bound on its rounds.
pub drain : ℕ → Channel → Paste → Paste × Channel
drain zero c p = (p, c)
drain (suc fuel) [] p = (p, [])
drain (suc fuel) (timeout ∷ c) p = (p, c)
drain (suc fuel) (byte b ∷ c) p =
    let (tail, c') = read_channel_exact 5 c in
    let stray = drain fuel c' (paste_bytes p tail) in
    let next = drain fuel c (paste_byte p b) in
    if b == 27 then (if equal tail end_marker then (p, c') else stray) else next

-- The text behind `ESC[200~`: the new line, whether the bell is rung, and what is left to read. A
-- round takes a byte at least, so the length is fuel enough.
pub paste : Bytes → Channel → Bytes × Bool × Channel
paste input c =
    let start : Paste = record {
      input = input;
      utf8 = reset;
      overflow = false;
      invalid_utf8 = false;
    } in
    let (p, c') = drain (length c) c start in
    let (state, status) = state_finish p.utf8 in
    (p.input, p.overflow || p.invalid_utf8 || status.invalid_utf8, c')

-- What reads "200~" behind `ESC[2`, and the paste if it does.
pub bracketed_paste : Bytes → Channel → Bytes × Bool × Channel
bracketed_paste input c =
    let (rest, c') = read_channel_exact 3 c in
    if equal rest (codes "00~") then paste input c' else (input, false, c')
