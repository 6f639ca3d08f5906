-- ===== src/InputBuffer/Tests.antt =====
-- The theorems on the input line at concrete streams.
use tnt.Base.{true, false, [], ◌∷◌, Bytes, ◌≡◌, inl, inr, refl, arith}
use tnt.Utf8.{byte_length}
use tnt.InputBuffer.{
  State, append_invalid, reset, feed, append_stream_byte, append_printable_byte, append_ascii,
  append_bytes, start_utf8_sequence,
}
use tnt.InputBuffer.Feed.{IsLine, IsState, feed-IsLine}

-- "h" before the cursor, and the first byte of a sequence of three.
abbrev line : Bytes
line = 104 ∷ []

abbrev pending : State
pending = record { bytes = 0xE4 ∷ []; expected_len = 3 }

line-IsLine : IsLine 16 line
line-IsLine = record {
  text = record {
    points = 104 ∷ [];
    scalars = ((omega arith, omega arith, inl (omega arith)), tt);
    spells = refl;
  };
  printable = (omega arith, tt);
  within = omega arith;
}

pending-IsState : IsState pending
pending-IsState = record {
  shorter = inr (omega arith);
  at_most = omega arith;
  byte = (omega arith, tt);
  high = (omega arith, tt);
}

feed-IsLine_example :
    let (input', state', status) = feed line 16 pending (0xBD ∷ 0xA0 ∷ 10 ∷ 0xFF ∷ []) true in
    IsLine 16 input' × IsState state'
feed-IsLine_example =
    feed-IsLine line 16 pending (0xBD ∷ 0xA0 ∷ 10 ∷ 0xFF ∷ []) true line-IsLine pending-IsState
      (omega arith, (omega arith, (omega arith, (omega arith, tt))))

-- A sequence that another byte cuts off is dropped and flagged; the byte itself is kept.
broken_sequence : feed line 16 reset (0xE4 ∷ 65 ∷ []) false ≡ (104 ∷ 65 ∷ [], reset, append_invalid)
unfolding append_stream_byte append_printable_byte append_ascii append_bytes start_utf8_sequence
    byte_length
broken_sequence = refl
