-- ===== src/InputBuffer/Round.antt =====
-- Typing a text: the bytes of its code points, one call each, append exactly the text.
use mathlib.Core.Path.{subst}
use tnt.Base.{
  ◌/◌, ◌%◌, ℕ, ◌+◌, ◌≤◌, ◌<◌, ◌≢◌, Bool, true, List, [], ◌∷◌, ◌++◌, ltb, leb, if◌then◌else◌, length,
  append-nil, append_assoc, Bytes, All, ◌≡◌, refl, sym, ap, ◌∙◌, arith, inl, inr, length-append,
  Bool-cases,
}
use tnt.Utf8.{byte_length, is_continuation, is_valid_sequence}
use tnt.Utf8.Spec.{IsScalar, encoding, encoded_length, encode_all}
use tnt.Utf8.Lead.{byte_length_lem, is_continuation_lem}
use tnt.Utf8.Valid.{valid_sequence-encoding}
use tnt.InputBuffer.{
  Status, State, ok, append_overflow, flagged, either, reset, append_bytes, append_ascii,
  append_utf8_sequence, start_utf8_sequence, append_complete, append_printable_byte,
  append_stream_byte, feed,
}

-- A scalar value that a line can hold.
abbrev pub IsPrintable : ℕ → Type 0
IsPrintable cp = IsScalar cp × (32 ≤ cp) × (cp ≢ 127)

-- What the call on the last byte of a sequence gives.
abbrev pub typed : Bytes → ℕ → Bytes → Bytes × State × Status
typed input size bytes =
    if leb size (length input + length bytes)
    then (input, reset, append_overflow)
    else (input ++ bytes, reset, ok)

stream_high :
    (input : Bytes) (size : ℕ) (state : State) (b : ℕ) (paste_mode : Bool)
    → 128 ≤ b
    → append_stream_byte input size state b paste_mode ≡ append_printable_byte input size state b
unfolding append_stream_byte
stream_high input size state b paste_mode h = ground arith

stream_start :
    (input : Bytes) (size b n : ℕ) (paste_mode : Bool)
    → 128 ≤ b
    → byte_length b ≡ n
    → 2 ≤ n
    → n ≤ 4
    → append_stream_byte input size reset b paste_mode
      ≡ (input, record { bytes = b ∷ []; expected_len = n }, ok)
unfolding append_printable_byte start_utf8_sequence
stream_start input size b n paste_mode h e low high =
    stream_high input size reset b paste_mode h ∙ ground arith

stream_middle :
    (input : Bytes) (size b : ℕ) (state : State) (paste_mode : Bool)
    → 128 ≤ b
    → is_continuation b ≡ true
    → 1 ≤ length state.bytes
    → length state.bytes + 1 < state.expected_len
    → append_stream_byte input size state b paste_mode
      ≡ (input, record state { bytes = state.bytes ++ b ∷ [] }, ok)
unfolding append_printable_byte append_complete
stream_middle input size b state paste_mode h c some less =
    stream_high input size state b paste_mode h ∙ ground (arith, length-append state.bytes (b ∷ []))

stream_last :
    (input : Bytes) (size b : ℕ) (state : State) (paste_mode : Bool)
    → 1 ≤ size
    → 128 ≤ b
    → is_continuation b ≡ true
    → 1 ≤ length state.bytes
    → state.expected_len ≤ 4
    → length state.bytes + 1 ≡ state.expected_len
    → is_valid_sequence (state.bytes ++ b ∷ []) state.expected_len ≡ true
    → append_stream_byte input size state b paste_mode ≡ typed input size (state.bytes ++ b ∷ [])
unfolding append_printable_byte append_complete append_utf8_sequence append_bytes
stream_last input size b state paste_mode p h c some most last valid =
    stream_high input size state b paste_mode h ∙ ground (arith, length-append state.bytes (b ∷ []))

flagged_ok : (r : Bytes × State × Status) → (r.0, r.1, either r.2 ok) ≡ r
flagged_ok r = ground arith

module _ (input : Bytes) (size : ℕ) (paste_mode : Bool) (p : 1 ≤ size) where
  feed_one :
      (b : ℕ)
      → 32 ≤ b
      → b < 127
      → feed input size reset (b ∷ []) paste_mode ≡ typed input size (b ∷ [])
  unfolding append_stream_byte append_printable_byte append_ascii append_bytes
  feed_one b low high = ground arith

  feed_two :
      (a b : ℕ)
      → 128 ≤ a
      → 128 ≤ b
      → byte_length a ≡ 2
      → is_continuation b ≡ true
      → is_valid_sequence (a ∷ b ∷ []) 2 ≡ true
      → feed input size reset (a ∷ b ∷ []) paste_mode ≡ typed input size (a ∷ b ∷ [])
  feed_two a b la lb n cb v =
      let held : State = record { bytes = a ∷ []; expected_len = 2 } in
      rw
        (
          stream_start input size a 2 paste_mode la n (omega arith) (omega arith),
          stream_last input size b held paste_mode p lb cb (omega arith) (omega arith) refl v,
        )
        (flagged_ok (typed input size (a ∷ b ∷ [])))

  feed_three :
      (a b c : ℕ)
      → 128 ≤ a
      → 128 ≤ b
      → 128 ≤ c
      → byte_length a ≡ 3
      → is_continuation b ≡ true
      → is_continuation c ≡ true
      → is_valid_sequence (a ∷ b ∷ c ∷ []) 3 ≡ true
      → feed input size reset (a ∷ b ∷ c ∷ []) paste_mode ≡ typed input size (a ∷ b ∷ c ∷ [])
  feed_three a b c la lb lc n cb cc' v =
      let held : State = record { bytes = a ∷ []; expected_len = 3 } in
      rw
        (
          stream_start input size a 3 paste_mode la n (omega arith) (omega arith),
          stream_middle input size b held paste_mode lb cb (omega arith) (omega arith),
          stream_last input size c (record held { bytes = a ∷ b ∷ [] }) paste_mode p lc cc'
              (omega arith) (omega arith) refl v,
        )
        (flagged_ok (typed input size (a ∷ b ∷ c ∷ [])))

  feed_four :
      (a b c d : ℕ)
      → 128 ≤ a
      → 128 ≤ b
      → 128 ≤ c
      → 128 ≤ d
      → byte_length a ≡ 4
      → is_continuation b ≡ true
      → is_continuation c ≡ true
      → is_continuation d ≡ true
      → is_valid_sequence (a ∷ b ∷ c ∷ d ∷ []) 4 ≡ true
      → feed input size reset (a ∷ b ∷ c ∷ d ∷ []) paste_mode
        ≡ typed input size (a ∷ b ∷ c ∷ d ∷ [])
  feed_four a b c d la lb lc ld n cb cc' cd v =
      let held : State = record { bytes = a ∷ []; expected_len = 4 } in
      rw
        (
          stream_start input size a 4 paste_mode la n (omega arith) (omega arith),
          stream_middle input size b held paste_mode lb cb (omega arith) (omega arith),
          stream_middle input size c (record held { bytes = a ∷ b ∷ [] }) paste_mode lc cc'
              (omega arith) (omega arith),
          stream_last input size d (record held { bytes = a ∷ b ∷ c ∷ [] }) paste_mode p ld cd
              (omega arith) (omega arith) refl v,
        )
        (flagged_ok (typed input size (a ∷ b ∷ c ∷ d ∷ [])))

-- The bytes of one printable code point append it when its bytes and the NUL fit, and leave the
-- line as it is, with the overflow flag, when they do not; nothing stays pending.
pub feed-encoding :
    (input : Bytes) (size cp : ℕ) (paste_mode : Bool)
    → 1 ≤ size
    → IsPrintable cp
    → feed input size reset (encoding cp) paste_mode ≡ typed input size (encoding cp)
feed-encoding input size cp paste_mode p h =
    let valid : is_valid_sequence (encoding cp) (encoded_length cp) ≡ true =
      subst (λ t. is_valid_sequence t (encoded_length cp) ≡ true) (append-nil (encoding cp))
        (valid_sequence-encoding cp [] h.0) in
    let tail : (x : ℕ) → is_continuation (128 + x % 64) ≡ true =
      λ x. is_continuation_lem (128 + x % 64) (omega arith) ∙ ground arith in
    elim (Bool-cases (ltb cp 0x80)) [
      | inl one ↦ rw one (feed_one input size paste_mode p cp (ground arith) (ground arith))
      | inr more ↦ elim (Bool-cases (ltb cp 0x800)) [
        | inl two ↦
            rw (more, two)
              (feed_two input size paste_mode p (0xC0 + cp / 64) (0x80 + cp % 64) (omega arith)
                (omega arith) (byte_length_lem (0xC0 + cp / 64) (ground arith) ∙ ground arith)
                (tail cp) (rw (more, two) at valid))
        | inr more' ↦ elim (Bool-cases (ltb cp 0x10000)) [
          | inl three ↦
              rw (more, more', three)
                (feed_three input size paste_mode p (0xE0 + cp / 4096) (0x80 + cp / 64 % 64)
                  (0x80 + cp % 64) (omega arith) (omega arith) (omega arith)
                  (byte_length_lem (0xE0 + cp / 4096) (ground arith) ∙ ground arith)
                  (tail (cp / 64)) (tail cp) (rw (more, more', three) at valid))
          | inr four ↦
              rw (more, more', four)
                (feed_four input size paste_mode p (0xF0 + cp / 262144) (0x80 + cp / 4096 % 64)
                  (0x80 + cp / 64 % 64) (0x80 + cp % 64) (omega arith) (omega arith) (omega arith)
                  (omega arith) (byte_length_lem (0xF0 + cp / 262144) (ground arith) ∙ ground arith)
                  (tail (cp / 4096)) (tail (cp / 64)) (tail cp) (rw (more, more', four) at valid))
        ]
      ]
    ]

flagged_assoc :
    (s t : Status) (r : Bytes × State × Status) → flagged s (flagged t r) ≡ flagged (either s t) r
flagged_assoc s t r = ground arith

feed-append :
    (input : Bytes) (size : ℕ) (state : State) (xs ys : Bytes) (paste_mode : Bool)
    → let (input', state', status) = feed input size state xs paste_mode in
      feed input size state (xs ++ ys) paste_mode
      ≡ flagged status (feed input' size state' ys paste_mode)
feed-append input size state [] ys paste_mode = refl
feed-append input size state (x ∷ xs) ys paste_mode =
    let (input', state', status) = append_stream_byte input size state x paste_mode in
    let rest = feed-append input' size state' xs ys paste_mode in
    ap (flagged status) rest
    ∙ flagged_assoc status (feed input' size state' xs paste_mode).2 (
        feed (feed input' size state' xs paste_mode).0 size
          (feed input' size state' xs paste_mode).1 ys paste_mode)

-- Typing or pasting a printable text that fits, with its NUL, appends exactly that text, raises no
-- flag and leaves nothing pending.
pub feed-encode_all :
    (input : Bytes) (size : ℕ) (cps : List ℕ) (paste_mode : Bool)
    → All IsPrintable cps
    → length input + length (encode_all cps) < size
    → feed input size reset (encode_all cps) paste_mode ≡ (input ++ encode_all cps, reset, ok)
feed-encode_all input size [] paste_mode h k = ap (λ t. (t, reset, ok)) (sym (append-nil input))
feed-encode_all input size (cp ∷ cps) paste_mode h k =
    let more = length-append (encoding cp) (encode_all cps) in
    let fits : typed input size (encoding cp) ≡ (input ++ encoding cp, reset, ok) =
      ground (arith, more) in
    let first = feed-encoding input size cp paste_mode (omega arith) h.0 ∙ fits in
    let rest =
      feed-encode_all (input ++ encoding cp) size cps paste_mode h.1
        (omega (arith, more, length-append input (encoding cp))) in
    feed-append input size reset (encoding cp) (encode_all cps) paste_mode
    ∙ rw first (rest ∙ rw (append_assoc input (encoding cp) (encode_all cps)) refl)
