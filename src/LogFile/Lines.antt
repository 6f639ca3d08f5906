-- ===== src/LogFile/Lines.antt =====
-- src/message.c: a log that only `message_save` has written reads back, record by record.
use mathlib.Core.List.{map}
use tnt.Base.{
  ℕ, zero, suc, ◌+◌, ◌-◌, ◌≤◌, ◌<◌, true, false, ◌||◌, List, [], ◌∷◌, ◌++◌, append_assoc, Option,
  none, some, length, take, length-append, Bytes, contains, All, ◌≡◌, refl, sym, ap, ◌∙◌, arith,
  inl, inr,
}
use tnt.Base.Int.{ℤ}
use tnt.Room.{Message}
use tnt.MessageLog.{
  max_line, max_username_len, max_message_len, in_window, parse_record, record_text, replace,
  safe_message,
}
use tnt.MessageLog.Format.{
  RoundTrips, length-record_text, record_body, record_text-body, char_at-last,
}
use tnt.MessageLog.Sanitize.{
  IsRecordable, safe_message-IsMessage, replace-IsField, parse_record-save,
}
use tnt.LogFile.{fgets_up_to, fgets, oversized, read_record, records_from, records}

contains-append : (c : ℕ) (s t : Bytes) → contains c (s ++ t) ≡ contains c s || contains c t
unfolding contains
contains-append c [] t = refl
contains-append c (b ∷ s) t = ground (arith, contains-append c s t)

fgets_line :
    (room : ℕ) (body rest : Bytes)
    → length body < room
    → contains 10 body ≡ false
    → fgets_up_to room (body ++ 10 ∷ rest) ≡ (body ++ 10 ∷ [], rest)
unfolding fgets_up_to contains
fgets_line zero body rest h c = absurd (omega arith)
fgets_line (suc room) [] rest h c = ground arith
fgets_line (suc room) (b ∷ body) rest h c = ground (arith, fgets_line room body rest)

line-oversized : (body : Bytes) → oversized (body ++ 10 ∷ []) ≡ false
unfolding oversized
line-oversized body =
    let size : length (body ++ 10 ∷ []) ≡ length body + 1 = length-append body (10 ∷ []) in
    let end : length body + 1 - 1 ≡ length body = omega arith in
    rw (oversized, size, end, char_at-last body 10) (ground arith)

module _ {Tm : Type 0} (strptime : Bytes → Option (Tm × Bytes)) (timegm : Tm → ℤ) (now : ℤ) where
  read_record_line :
      (body rest : Bytes) (m : Message)
      → length body < max_line - 1
      → contains 10 body ≡ false
      → parse_record strptime timegm (body ++ 10 ∷ []) now ≡ some m
      → read_record strptime timegm now (fgets max_line (body ++ 10 ∷ rest)) ≡ (some m, rest)
  unfolding read_record fgets
  read_record_line body rest m h c p =
      rw (fgets_line (max_line - 1) body rest h c, line-oversized body, p) refl

  abbrev continue : ℕ → Option Message × Bytes → List Message
  continue fuel read = elim read.0 [
    | none ↦ records_from strptime timegm now fuel read.1
    | some n ↦ n ∷ records_from strptime timegm now fuel read.1
  ]

  records_line :
      (fuel : ℕ) (body rest : Bytes) (m : Message)
      → length body < max_line - 1
      → contains 10 body ≡ false
      → parse_record strptime timegm (body ++ 10 ∷ []) now ≡ some m
      → records_from strptime timegm now (suc fuel) (body ++ 10 ∷ rest)
        ≡ m ∷ records_from strptime timegm now fuel rest
  unfolding records_from
  records_line fuel [] rest m h c p = ap (continue fuel) (read_record_line [] rest m h c p)
  records_line fuel (b ∷ body) rest m h c p =
      ap (continue fuel) (read_record_line (b ∷ body) rest m h c p)

-- The message as the log keeps it.
abbrev pub logged : Message → Message
logged m = record m { username = replace 95 m.username; content = replace 32 m.content }

module _ {Tm : Type 0} (gmtime : ℤ → Tm) (strftime : Tm → Bytes)
    (strptime : Bytes → Option (Tm × Bytes)) (timegm : Tm → ℤ) (now : ℤ) where
  -- A message that the log keeps, at a time at which it is replayed.
  pub record IsReplayed (m : Message) : Type 0 where
    pub trip : RoundTrips gmtime strftime strptime timegm m.timestamp
    pub text : IsRecordable m
    pub recent : in_window now m.timestamp ≡ true

  pub saved_stamp :
      (m : Message) → IsReplayed m → length (strftime (gmtime (safe_message m).timestamp)) ≤ 20
  unfolding safe_message
  saved_stamp m v = v.trip.short

  saved_body_short :
      (m : Message)
      → IsReplayed m
      → length (record_body gmtime strftime (safe_message m)) < max_line - 1
  saved_body_short m v =
      let safe = safe_message m in
      let message = safe_message-IsMessage m v.text in
      omega (
        arith,
        ap length (record_text-body gmtime strftime safe),
        length-append (record_body gmtime strftime safe) (10 ∷ []),
        length-record_text gmtime strftime safe,
        saved_stamp m v,
        message.short_name,
        message.short_content,
      )

  saved_body_line :
      (m : Message)
      → IsReplayed m
      → contains 10 (record_body gmtime strftime (safe_message m)) ≡ false
  unfolding record_body safe_message contains
  saved_body_line m v =
      let safe = safe_message m in
      let name = replace-IsField 95 (inl refl) (take (max_username_len - 1) m.username) in
      let content = replace-IsField 32 (inr refl) (take (max_message_len - 1) m.content) in
      rw
        (
          contains-append 10 (strftime (gmtime m.timestamp))
              (124 ∷ safe.username ++ 124 ∷ safe.content),
          contains-append 10 safe.username (124 ∷ safe.content),
          v.trip.one_line,
          name.1,
          content.1,
        )
        refl

  -- The text of a log of these messages
  unfoldable pub texts : List Message → Bytes
  texts [] = []
  texts (m ∷ ms) = record_body gmtime strftime (safe_message m) ++ 10 ∷ texts ms

  pub texts-append : (ms ns : List Message) → texts (ms ++ ns) ≡ texts ms ++ texts ns
  unfolding texts
  texts-append [] ns = refl
  texts-append (m ∷ ms) ns =
      let body = record_body gmtime strftime (safe_message m) in
      ap (λ t. body ++ 10 ∷ t) (texts-append ms ns)
      ∙ sym (append_assoc body (10 ∷ texts ms) (texts ns))

  -- The record of one message
  pub texts_one : (m : Message) → record_text gmtime strftime (safe_message m) ≡ texts (m ∷ [])
  unfolding texts
  texts_one m = record_text-body gmtime strftime (safe_message m)

  records_texts :
      (fuel : ℕ) (ms : List Message)
      → length (texts ms) ≤ fuel
      → All IsReplayed ms
      → records_from strptime timegm now fuel (texts ms) ≡ map logged ms
  unfolding texts records_from
  records_texts zero [] h v = refl
  records_texts (suc fuel) [] h v = refl
  records_texts zero (m ∷ ms) h v =
      absurd (
        omega (arith, length-append (record_body gmtime strftime (safe_message m)) (10 ∷ texts ms)))
  records_texts (suc fuel) (m ∷ ms) h v =
      let body = record_body gmtime strftime (safe_message m) in
      let parsed =
        ap (λ t. parse_record strptime timegm t now)
          (sym (record_text-body gmtime strftime (safe_message m)))
        ∙ parse_record-save gmtime strftime strptime timegm m now v.0.trip v.0.text v.0.recent in
      records_line strptime timegm now fuel body (texts ms) (logged m) (saved_body_short m v.0)
        (saved_body_line m v.0) parsed
      ∙ ap (◌∷◌ (logged m))
          (records_texts fuel ms (omega (arith, length-append body (10 ∷ texts ms))) v.1)

  pub records-texts :
      (ms : List Message)
      → All IsReplayed ms
      → records strptime timegm now (texts ms) ≡ map logged ms
  unfolding records
  records-texts ms v = records_texts (length (texts ms)) ms (omega arith) v
