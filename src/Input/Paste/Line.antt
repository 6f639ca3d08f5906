-- ===== src/Input/Paste/Line.antt =====
-- Whatever is pasted, the line stays one.
use tnt.Base.{
  ℕ, zero, suc, ◌<◌, true, false, [], ◌∷◌, ◌==◌, length, Bytes, equal, arith, All, Bool-cases, inl,
  inr,
}
use tnt.InputBuffer.{reset}
use tnt.InputBuffer.Feed.{IsLine, IsState, reset-IsState, feed-IsLine}
use tnt.Input.Channel.{byte, timeout, Channel, read_channel_exact, IsReadByte, read-IsByte}
use tnt.MessageLog.{max_message_len}
use tnt.Input.Paste.{Paste, paste_byte, paste_bytes, end_marker, drain, paste, bracketed_paste}
use tnt.Input.Paste.Framing.{paste_bytes-feed}

-- A paste in good order.
abbrev IsPaste : Paste → Type 0
IsPaste p = IsLine max_message_len p.input × IsState p.utf8

paste_bytes-IsPaste :
    (p : Paste) (bytes : Bytes)
    → IsPaste p
    → All (λ b. b < 256) bytes
    → IsPaste (paste_bytes p bytes)
paste_bytes-IsPaste p bytes h k =
    rw (paste_bytes-feed p bytes) (feed-IsLine p.input max_message_len p.utf8 bytes true h.0 h.1 k)

paste_byte-IsPaste : (p : Paste) (b : ℕ) → IsPaste p → b < 256 → IsPaste (paste_byte p b)
unfolding paste_bytes
paste_byte-IsPaste p b h k = paste_bytes-IsPaste p (b ∷ []) h (k, tt)

drain-IsPaste :
    (fuel : ℕ) (c : Channel) (p : Paste)
    → IsPaste p
    → All IsReadByte c
    → IsPaste (drain fuel c p).0 × All IsReadByte (drain fuel c p).1
unfolding drain
drain-IsPaste zero c p h k = (h, k)
drain-IsPaste (suc fuel) [] p h k = (h, k)
drain-IsPaste (suc fuel) (timeout ∷ c) p h k = (h, k.1)
drain-IsPaste (suc fuel) (byte b ∷ c) p h k =
    let (tail, c') = read_channel_exact 5 c in
    let (bytes, reads) = read-IsByte 5 c k.1 in
    elim (Bool-cases (b == 27)) [
      | inl esc ↦ rw esc (elim (Bool-cases (equal tail end_marker)) [
        | inl ends ↦ rw ends (h, reads)
        | inr stray ↦
            rw stray (
              drain-IsPaste fuel c' (paste_bytes p tail) (paste_bytes-IsPaste p tail h bytes) reads)
      ])
      | inr other ↦
          rw other (drain-IsPaste fuel c (paste_byte p b) (paste_byte-IsPaste p b h k.0) k.1)
    ]

pub bracketed_paste-IsLine :
    (input : Bytes) (c : Channel)
    → IsLine max_message_len input
    → All IsReadByte c
    → IsLine max_message_len (bracketed_paste input c).0
      × All IsReadByte (bracketed_paste input c).2
unfolding bracketed_paste paste
bracketed_paste-IsLine input c h k =
    let start : Paste = record {
      input = input;
      utf8 = reset;
      overflow = false;
      invalid_utf8 = false;
    } in
    let (rest, c') = read_channel_exact 3 c in
    let (bytes, reads) = read-IsByte 3 c k in
    let (after, left) = drain-IsPaste (length c') c' start (h, reset-IsState) reads in
    ground (arith, reads, after, left)
