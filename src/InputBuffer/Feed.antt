-- ===== src/InputBuffer/Feed.antt =====
-- What any stream of bytes can do to the line: it stays printable UTF-8 within its buffer.
use mathlib.Core.Path.{subst}
use tnt.Base.{
  ℕ, ◌≤◌, ◌<◌, ◌⊎◌, inl, inr, Bool, [], ◌∷◌, ◌++◌, length, drop-all, append-nil, Bytes, All,
  All-append, ◌≡◌, refl, sym, ap, ◌∙◌, arith, length-append, Bool-cases,
}
use tnt.Utf8.{is_valid_sequence}
use tnt.Utf8.Spec.{IsScalar, IsUtf8, encoding}
use tnt.Utf8.Valid.{valid_sequence-Spells}
use tnt.Utf8.Cut.{encode_all-append}
use tnt.InputBuffer.{
  State, reset, append_bytes, append_ascii, append_utf8_sequence, start_utf8_sequence,
  append_complete, append_printable_byte, append_stream_byte, feed,
}

-- The line in a buffer of `size` bytes: UTF-8 text, with no control byte, and room for its NUL.
pub record IsLine (size : ℕ) (input : Bytes) : Type 0 where
  pub text : IsUtf8 input
  pub printable : All (λ b. 32 ≤ b) input
  pub within : length input < size

-- The bytes of an unfinished sequence: none, or fewer than the first one announces.
pub record IsState (state : State) : Type 0 where
  pub shorter : (length state.bytes ≡ 0) ⊎ (length state.bytes < state.expected_len)
  pub at_most : state.expected_len ≤ 4
  pub byte : All (λ b. b < 256) state.bytes
  pub high : All (λ b. 128 ≤ b) state.bytes

pub reset-IsState : IsState reset
reset-IsState = record { shorter = inl refl; at_most = omega arith; byte = tt; high = tt }

pub point-IsUtf8 :
    (input : Bytes) (cp : ℕ) → IsUtf8 input → IsScalar cp → IsUtf8 (input ++ encoding cp)
point-IsUtf8 input cp u s = record {
  points = u.points ++ cp ∷ [];
  scalars = All-append IsScalar u.points (cp ∷ []) u.scalars (s, tt);
  spells = encode_all-append u.points (cp ∷ []) ∙ rw (u.spells, append-nil (encoding cp)) refl;
}

pub All-weaken : (s : Bytes) → All (λ b. 128 ≤ b) s → All (λ b. 32 ≤ b) s
All-weaken [] h = tt
All-weaken (b ∷ s) h = (omega (arith, h.0), All-weaken s h.1)

append_bytes-IsLine :
    (input : Bytes) (size cp : ℕ) (bytes : Bytes)
    → IsLine size input
    → IsScalar cp
    → encoding cp ≡ bytes
    → All (λ b. 32 ≤ b) bytes
    → IsLine size (append_bytes input size bytes).0
unfolding append_bytes
append_bytes-IsLine input size cp bytes h s e p =
    let longer_text : IsUtf8 (input ++ bytes) =
      subst (λ t. IsUtf8 (input ++ t)) e (point-IsUtf8 input cp h.text s) in
    let all_printable = All-append (λ b. 32 ≤ b) input bytes h.printable p in
    ground (arith, longer_text, all_printable, length-append input bytes)

pub append_ascii-IsLine :
    (input : Bytes) (size b : ℕ) → IsLine size input → IsLine size (append_ascii input size b).0
unfolding append_ascii
append_ascii-IsLine input size b h =
    let text : (32 ≤ b) × (b < 127) → IsLine size (append_bytes input size (b ∷ [])).0 =
      λ p. append_bytes-IsLine input size b (b ∷ []) h (ground arith) (ground arith) (p.0, tt) in
    ground (arith, text)

pub append_utf8_sequence-IsLine :
    (input : Bytes) (size : ℕ) (bytes : Bytes)
    → IsLine size input
    → All (λ b. b < 256) bytes
    → All (λ b. 128 ≤ b) bytes
    → IsLine size (append_utf8_sequence input size bytes).0
unfolding append_utf8_sequence
append_utf8_sequence-IsLine input size bytes h k g =
    elim (Bool-cases (is_valid_sequence bytes (length bytes))) [
      | inl valid ↦
          let r = valid_sequence-Spells bytes (length bytes) k valid in
          let exact : encoding r.point ≡ bytes = sym (
            r.bytes
            ∙ ap (λ t. encoding r.point ++ t) (drop-all (length bytes) bytes (omega arith))
            ∙ append-nil (encoding r.point)) in
          let line =
            append_bytes-IsLine input size r.point bytes h r.scalar exact (All-weaken bytes g) in
          ground (arith, line)
      | inr invalid ↦ ground arith
    ]

start-IsLine :
    (input : Bytes) (size b : ℕ)
    → IsLine size input
    → 128 ≤ b
    → b < 256
    → let (input', state', status) = start_utf8_sequence input size b in
      IsLine size input' × IsState state'
unfolding start_utf8_sequence
start-IsLine input size b h low high = ground (arith, reset-IsState)

complete-IsLine :
    (input : Bytes) (size : ℕ) (state : State)
    → IsLine size input
    → state.expected_len ≤ 4
    → length state.bytes ≤ state.expected_len
    → All (λ b. b < 256) state.bytes
    → All (λ b. 128 ≤ b) state.bytes
    → let (input', state', status) = append_complete input size state in
      IsLine size input' × IsState state'
unfolding append_complete
complete-IsLine input size state h m n k g =
    ground (arith, reset-IsState, append_utf8_sequence-IsLine input size state.bytes h k g)

printable-IsLine :
    (input : Bytes) (size : ℕ) (state : State) (b : ℕ)
    → IsLine size input
    → IsState state
    → b < 256
    → let (input', state', status) = append_printable_byte input size state b in
      IsLine size input' × IsState state'
unfolding append_printable_byte
printable-IsLine input size state b h v high =
    let state' = record state { bytes = state.bytes ++ b ∷ [] } in
    let ascii = append_ascii-IsLine input size b h in
    let starts : 128 ≤ b → _ = λ low. start-IsLine input size b h low high in
    let grown = length-append state.bytes (b ∷ []) in
    let completes : 128 ≤ b → length state.bytes < state.expected_len → _ = λ low shorter.
      complete-IsLine input size state' h v.at_most (omega arith)
        (All-append (λ c. c < 256) state.bytes (b ∷ []) v.byte (high, tt))
        (All-append (λ c. 128 ≤ c) state.bytes (b ∷ []) v.high (low, tt)) in
    ground (arith, ascii, starts, completes, reset-IsState, v.shorter)

stream-IsLine :
    (input : Bytes) (size : ℕ) (state : State) (b : ℕ) (paste_mode : Bool)
    → IsLine size input
    → IsState state
    → b < 256
    → let (input', state', status) = append_stream_byte input size state b paste_mode in
      IsLine size input' × IsState state'
unfolding append_stream_byte
stream-IsLine input size state b paste_mode h v high = ground (
  arith,
  printable-IsLine input size state b h v,
  printable-IsLine input size state 32 h v,
  reset-IsState,
)

-- Whatever bytes arrive, in or out of paste mode, a line stays a line: UTF-8 text with no byte below
-- 32 that leaves room for its NUL; and the pending bytes stay fewer than the first one announces.
pub feed-IsLine :
    (input : Bytes) (size : ℕ) (state : State) (stream : Bytes) (paste_mode : Bool)
    → IsLine size input
    → IsState state
    → All (λ b. b < 256) stream
    → let (input', state', status) = feed input size state stream paste_mode in
      IsLine size input' × IsState state'
feed-IsLine input size state [] paste_mode h v k = (h, v)
feed-IsLine input size state (b ∷ bs) paste_mode h v k =
    let (h', v') = stream-IsLine input size state b paste_mode h v k.0 in
    let (input', state', status) = append_stream_byte input size state b paste_mode in
    feed-IsLine input' size state' bs paste_mode h' v' k.1
