-- ===== src/InputBuffer.antt =====
-- src/input_buffer.c: bytes of a terminal stream become a valid UTF-8 line in a buffer of fixed
-- size. `input` is the string in the buffer, so `strlen(input)` is its length; `state.bytes` is the
-- list of the first `len` bytes of the C array. No caller passes a NULL pointer.
pub mod Feed
pub mod Round
pub mod Erase
mod Tests
use tnt.Base.{
  ℕ, zero, suc, ◌+◌, Bool, true, false, not, ◌&&◌, ◌||◌, List, [], ◌∷◌, ◌++◌, ltb, leb, ◌==◌,
  if◌then◌else◌, length, Bytes,
}
use tnt.Utf8.{byte_length, is_continuation, is_valid_sequence}

-- The flags of `tnt_input_append_status_t`; `ok` is none of them.
pub record Status : Type 0 where
  pub ignored : Bool
  pub overflow : Bool
  pub invalid_utf8 : Bool

abbrev pub ok : Status
ok = record { ignored = false; overflow = false; invalid_utf8 = false }

abbrev pub append_ignored : Status
append_ignored = record ok { ignored = true }

abbrev pub append_overflow : Status
append_overflow = record ok { overflow = true }

abbrev pub append_invalid : Status
append_invalid = record ok { invalid_utf8 = true }

-- `|` on the flags
abbrev pub either : Status → Status → Status
either s t = record {
  ignored = s.ignored || t.ignored;
  overflow = s.overflow || t.overflow;
  invalid_utf8 = s.invalid_utf8 || t.invalid_utf8;
}

-- `tnt_input_utf8_state_t`
pub record State : Type 0 where
  pub bytes : Bytes
  pub expected_len : ℕ

-- `tnt_input_utf8_state_reset`
abbrev pub reset : State
reset = record { bytes = []; expected_len = 0 }

unfoldable pub append_bytes : Bytes → ℕ → Bytes → Bytes × Status
append_bytes input input_size bytes =
    if input_size == 0 || length bytes == 0
    then (input, append_ignored)
    else if leb input_size (length input + length bytes)
    then (input, append_overflow)
    else (input ++ bytes, ok)

unfoldable pub append_ascii : Bytes → ℕ → ℕ → Bytes × Status
append_ascii input input_size b =
    if ltb b 32 || leb 127 b
    then (input, append_ignored)
    else append_bytes input input_size (b ∷ [])

unfoldable pub append_utf8_sequence : Bytes → ℕ → Bytes → Bytes × Status
append_utf8_sequence input input_size bytes =
    let len = length bytes in
    if leb len 0 || ltb 4 len || not (is_valid_sequence bytes len)
    then (input, append_invalid)
    else append_bytes input input_size bytes

-- Behind the first test `expected == 1` cannot hold, and the branch on it is dead.
pub start_utf8_sequence : Bytes → ℕ → ℕ → Bytes × State × Status
start_utf8_sequence input input_size b =
    let expected = byte_length b in
    if leb expected 1 || ltb 4 expected
    then (input, reset, append_invalid)
    else (input, record { bytes = b ∷ []; expected_len = expected }, ok)

abbrev pub flagged : Status → Bytes × State × Status → Bytes × State × Status
flagged s (input, state, t) = (input, state, either s t)

append_complete : Bytes → ℕ → State → Bytes × State × Status
append_complete input input_size state =
    if length state.bytes == state.expected_len
    then (let (input', status) = append_utf8_sequence input input_size state.bytes in
        (input', reset, status))
    else (input, state, ok)

-- The source calls itself on the reset state and the same `b`, which is at least 128, so that call
-- is the one of `start_utf8_sequence`.
pub append_printable_byte : Bytes → ℕ → State → ℕ → Bytes × State × Status
unfolding append_complete
append_printable_byte input input_size state b =
    let pending = ltb 0 (length state.bytes) in
    if ltb b 128
    then (let (input', status) = append_ascii input input_size b in
        if pending then (input', reset, either append_invalid status) else (input', state, status))
    else if length state.bytes == 0
    then start_utf8_sequence input input_size b
    else if not (is_continuation b)
    then flagged append_invalid (start_utf8_sequence input input_size b)
    else append_complete input input_size (record state { bytes = state.bytes ++ b ∷ [] })

unfoldable pub append_stream_byte : Bytes → ℕ → State → ℕ → Bool → Bytes × State × Status
append_stream_byte input input_size state byte paste_mode =
    let b = if paste_mode && (byte == 13 || byte == 10 || byte == 9) then 32 else byte in
    if ltb b 32
    then if ltb 0 (length state.bytes)
      then (input, reset, either append_invalid append_ignored)
      else (input, state, append_ignored)
    else append_printable_byte input input_size state b

unfoldable pub state_finish : State → State × Status
state_finish state = if length state.bytes == 0 then (state, ok) else (reset, append_invalid)

-- The caller's loop: one byte after the other, the flags of all calls together.
abbrev pub feed : Bytes → ℕ → State → Bytes → Bool → Bytes × State × Status
feed input input_size state [] paste_mode = (input, state, ok)
feed input input_size state (b ∷ bs) paste_mode =
    let (input', state', status) = append_stream_byte input input_size state b paste_mode in
    flagged status (feed input' input_size state' bs paste_mode)
