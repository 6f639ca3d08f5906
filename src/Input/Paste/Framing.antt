-- ===== src/Input/Paste/Framing.antt =====
-- A paste ends at its end marker and types what stands before it; a stray ESC can hide the marker.
use tnt.Base.{
  ℕ, zero, suc, ◌+◌, ◌≤◌, ◌<◌, ◌≢◌, true, false, ◌||◌, List, [], ◌∷◌, ◌++◌, ◌==◌, if◌then◌else◌,
  length, Bytes, equal, codes, ◌≡◌, refl, ◌∙◌, ap, arith, All,
}
use tnt.Utf8.Spec.{encode_all}
use tnt.InputBuffer.{Status, State, ok, reset, flagged, append_stream_byte, state_finish, feed}
use tnt.InputBuffer.Round.{IsPrintable, feed-encode_all}
use tnt.Input.Channel.{byte, timeout, Channel, sent, read_channel_exact}
use tnt.MessageLog.{max_message_len}
use tnt.Input.Paste.{Paste, paste_byte, paste_bytes, end_marker, drain, paste, bracketed_paste}

length-read_channel_exact : (n : ℕ) (c : Channel) → length (read_channel_exact n c).1 ≤ length c
length-read_channel_exact zero c = omega arith
length-read_channel_exact (suc n) [] = omega arith
length-read_channel_exact (suc n) (timeout ∷ c) = omega arith
length-read_channel_exact (suc n) (byte b ∷ c) = omega (arith, length-read_channel_exact n c)

-- Every bound on the rounds from the length of the channel on gives the same result.
drain-fuel :
    (fuel enough : ℕ) (c : Channel) (p : Paste)
    → length c ≤ enough
    → enough ≤ fuel
    → drain fuel c p ≡ drain enough c p
unfolding drain
drain-fuel zero zero c p h k = refl
drain-fuel zero (suc enough) c p h k = absurd (omega arith)
drain-fuel (suc fuel) zero [] p h k = refl
drain-fuel (suc fuel) zero (x ∷ c) p h k = absurd (omega arith)
drain-fuel (suc fuel) (suc enough) [] p h k = refl
drain-fuel (suc fuel) (suc enough) (timeout ∷ c) p h k = refl
drain-fuel (suc fuel) (suc enough) (byte b ∷ c) p h k =
    let (tail, c') = read_channel_exact 5 c in
    ground (
      arith,
      length-read_channel_exact 5 c,
      drain-fuel fuel enough c' (paste_bytes p tail),
      drain-fuel fuel enough c (paste_byte p b),
    )

abbrev HasNoEsc : Bytes → Type 0
HasNoEsc = All (λ b. b ≢ 27)

-- Bytes other than ESC are typed one after the other.
drain-sent :
    (fuel : ℕ) (bytes : Bytes) (c : Channel) (p : Paste)
    → HasNoEsc bytes
    → length (sent bytes ++ c) ≤ fuel
    → drain fuel (sent bytes ++ c) p ≡ drain (length c) c (paste_bytes p bytes)
unfolding drain paste_bytes
drain-sent fuel [] c p h k = drain-fuel fuel (length c) c p (omega arith) k
drain-sent zero (b ∷ bytes) c p h k = absurd (omega arith)
drain-sent (suc fuel) (b ∷ bytes) c p h k =
    ground (arith, drain-sent fuel bytes c (paste_byte p b) h.1)

-- An ESC takes the next five bytes with it.
drain-esc :
    (fuel b0 b1 b2 b3 b4 : ℕ) (c : Channel) (p : Paste)
    → let tail = b0 ∷ b1 ∷ b2 ∷ b3 ∷ b4 ∷ [] in
      drain (suc fuel) (byte 27 ∷ (sent tail ++ c)) p
      ≡ (if equal tail end_marker then (p, c) else drain fuel c (paste_bytes p tail))
unfolding drain
drain-esc fuel b0 b1 b2 b3 b4 c p = refl

-- The state of a paste after a stream of bytes, as `feed` tells it.
abbrev fed : Paste → Bytes × State × Status → Paste
fed p (input, state, status) = record {
  input = input;
  utf8 = state;
  overflow = p.overflow || status.overflow;
  invalid_utf8 = p.invalid_utf8 || status.invalid_utf8;
}

pub paste_bytes-feed :
    (p : Paste) (bytes : Bytes)
    → paste_bytes p bytes ≡ fed p (feed p.input max_message_len p.utf8 bytes true)
unfolding paste_bytes paste_byte
paste_bytes-feed p [] = ground arith
paste_bytes-feed p (b ∷ bytes) = ground (arith, paste_bytes-feed (paste_byte p b) bytes)

-- What a paste makes of line ends and tabs.
abbrev pub flat : ℕ → ℕ
flat b = if b == 13 || b == 10 || b == 9 then 32 else b

abbrev pub flatten : Bytes → Bytes
flatten [] = []
flatten (b ∷ bytes) = flat b ∷ flatten bytes

stream_flat :
    (input : Bytes) (size : ℕ) (state : State) (b : ℕ)
    → append_stream_byte input size state b true ≡ append_stream_byte input size state (flat b) true
unfolding append_stream_byte
stream_flat input size state b = ground arith

feed-flatten :
    (input : Bytes) (size : ℕ) (state : State) (bytes : Bytes)
    → feed input size state bytes true ≡ feed input size state (flatten bytes) true
feed-flatten input size state [] = refl
feed-flatten input size state (b ∷ bytes) =
    let (input', state', status) = append_stream_byte input size state (flat b) true in
    rw (stream_flat input size state b)
      (ap (flagged status) (feed-flatten input' size state' bytes))

drain-marked :
    (fuel : ℕ) (text : Bytes) (rest : Channel) (p : Paste)
    → HasNoEsc text
    → length (sent text ++ (sent (27 ∷ end_marker) ++ rest)) ≤ fuel
    → drain fuel (sent text ++ (sent (27 ∷ end_marker) ++ rest)) p ≡ (paste_bytes p text, rest)
unfolding equal
drain-marked fuel text rest p h k =
    drain-sent fuel text (sent (27 ∷ end_marker) ++ rest) p h k
    ∙ drain-esc (length (sent end_marker ++ rest)) b'[' b'2' b'0' b'1' b'~' rest
        (paste_bytes p text)

-- A paste of a text without ESC, that is printable UTF-8 once its line ends and tabs are spaces and
-- fits the line with its NUL, appends exactly that text, rings no bell, and leaves what stands behind
-- the end marker to be read.
pub bracketed_paste-text :
    (input text : Bytes) (cps : List ℕ) (rest : Channel)
    → All (λ b. b ≢ 27) text
    → flatten text ≡ encode_all cps
    → All IsPrintable cps
    → length input + length (encode_all cps) < max_message_len
    → bracketed_paste input (sent (codes "00~") ++ (sent text ++ (sent (27 ∷ end_marker) ++ rest)))
      ≡ (input ++ encode_all cps, false, rest)
unfolding bracketed_paste paste state_finish equal
bracketed_paste-text input text cps rest h spelled printable fits =
    let start : Paste = record {
      input = input;
      utf8 = reset;
      overflow = false;
      invalid_utf8 = false;
    } in
    let channel = sent text ++ (sent (27 ∷ end_marker) ++ rest) in
    let typed : feed input max_message_len reset text true ≡ (input ++ encode_all cps, reset, ok) =
      feed-flatten input max_message_len reset text
      ∙ rw spelled (feed-encode_all input max_message_len cps true printable fits) in
    let drained = drain-marked (length channel) text rest start h (omega arith) in
    rw (drained, paste_bytes-feed start text, typed) refl

-- All of a text without ESC is pasted where no marker comes.
drain-all :
    (fuel : ℕ) (bytes : Bytes) (p : Paste)
    → HasNoEsc bytes
    → length (sent bytes ++ []) ≤ fuel
    → (drain fuel (sent bytes ++ []) p).1 ≡ []
unfolding drain
drain-all fuel bytes p h k = ap (λ r. r.1) (drain-sent fuel bytes [] p h k)

drain-hidden :
    (fuel b0 b1 b2 b3 b4 : ℕ) (bytes : Bytes) (p : Paste)
    → equal (b0 ∷ b1 ∷ b2 ∷ b3 ∷ b4 ∷ []) end_marker ≡ false
    → HasNoEsc bytes
    → length (sent bytes ++ []) ≤ fuel
    → (drain (suc fuel) (byte 27 ∷ (sent (b0 ∷ b1 ∷ b2 ∷ b3 ∷ b4 ∷ []) ++ (sent bytes ++ []))) p).1
      ≡ []
drain-hidden fuel b0 b1 b2 b3 b4 bytes p other h k =
    rw (drain-esc fuel b0 b1 b2 b3 b4 (sent bytes ++ []) p, other)
      (drain-all fuel bytes (paste_bytes p (b0 ∷ b1 ∷ b2 ∷ b3 ∷ b4 ∷ [])) h k)

-- A stray ESC less than five bytes before the end marker hides the marker: what is typed behind the
-- paste, line ends included, is read as more of it where it has no ESC, and nothing is left to read.
pub paste-lost_marker :
    (input gap typed : Bytes)
    → All (λ b. b ≢ 27) gap
    → All (λ b. b ≢ 27) typed
    → length gap < 5
    → (paste input (sent (27 ∷ gap) ++ (sent (27 ∷ end_marker) ++ (sent typed ++ [])))).2 ≡ []
unfolding paste equal
paste-lost_marker input ([]) typed h k short =
    drain-hidden
      (length (sent (27 ∷ b'[' ∷ b'2' ∷ b'0' ∷ b'1' ∷ []) ++ (sent (b'~' ∷ typed) ++ []))) 27 b'['
      b'2' b'0' b'1' (b'~' ∷ typed)
      (record { input = input; utf8 = reset; overflow = false; invalid_utf8 = false })
      (ground arith) (λ e. omega arith, k) (omega arith)
paste-lost_marker input (x0 ∷ []) typed h k short =
    drain-hidden
      (length (sent (x0 ∷ 27 ∷ b'[' ∷ b'2' ∷ b'0' ∷ []) ++ (sent (b'1' ∷ b'~' ∷ typed) ++ []))) x0
      27 b'[' b'2' b'0' (b'1' ∷ b'~' ∷ typed)
      (record { input = input; utf8 = reset; overflow = false; invalid_utf8 = false })
      (ground arith) (λ e. omega arith, (λ e. omega arith, k)) (omega arith)
paste-lost_marker input (x0 ∷ x1 ∷ []) typed h k short =
    drain-hidden
      (length (sent (x0 ∷ x1 ∷ 27 ∷ b'[' ∷ b'2' ∷ []) ++ (sent (b'0' ∷ b'1' ∷ b'~' ∷ typed) ++ [])))
      x0 x1 27 b'[' b'2' (b'0' ∷ b'1' ∷ b'~' ∷ typed)
      (record { input = input; utf8 = reset; overflow = false; invalid_utf8 = false })
      (ground arith) (λ e. omega arith, (λ e. omega arith, (λ e. omega arith, k))) (omega arith)
paste-lost_marker input (x0 ∷ x1 ∷ x2 ∷ []) typed h k short =
    drain-hidden
      (length
        (sent (x0 ∷ x1 ∷ x2 ∷ 27 ∷ b'[' ∷ []) ++ (sent (b'2' ∷ b'0' ∷ b'1' ∷ b'~' ∷ typed) ++ [])))
      x0 x1 x2 27 b'[' (b'2' ∷ b'0' ∷ b'1' ∷ b'~' ∷ typed)
      (record { input = input; utf8 = reset; overflow = false; invalid_utf8 = false })
      (ground arith)
      (λ e. omega arith, (λ e. omega arith, (λ e. omega arith, (λ e. omega arith, k))))
      (omega arith)
paste-lost_marker input (x0 ∷ x1 ∷ x2 ∷ x3 ∷ []) typed h k short =
    drain-hidden
      (length (
        sent (x0 ∷ x1 ∷ x2 ∷ x3 ∷ 27 ∷ [])
        ++ (sent (b'[' ∷ b'2' ∷ b'0' ∷ b'1' ∷ b'~' ∷ typed) ++ [])))
      x0 x1 x2 x3 27 (b'[' ∷ b'2' ∷ b'0' ∷ b'1' ∷ b'~' ∷ typed)
      (record { input = input; utf8 = reset; overflow = false; invalid_utf8 = false })
      (ground arith)
      (
        λ e. omega arith,
        (λ e. omega arith, (λ e. omega arith, (λ e. omega arith, (λ e. omega arith, k)))),
      )
      (omega arith)
paste-lost_marker input (x0 ∷ x1 ∷ x2 ∷ x3 ∷ x4 ∷ gap) typed h k short = absurd (omega arith)
