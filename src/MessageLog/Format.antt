-- ===== src/MessageLog/Format.antt =====
-- A record that is printed reads back as the message, and what is not such a record is refused.
use tnt.Base.{
  ℕ, ◌+◌, ◌-◌, ◌≤◌, ◌<◌, true, false, [], ◌∷◌, ◌++◌, append_assoc, Option, some, length, take-all,
  take-length-append, length-append, Bytes, char_at, contains, ◌≡◌, refl, ap, ◌∙◌, arith,
}
use tnt.Base.Int.{ℤ}
use tnt.Utf8.{is_valid_string}
use tnt.Room.{Message}
use tnt.MessageLog.{
  max_username_len, max_message_len, max_line, split_at, is_minus_one, in_bounds, in_window,
  parse_rfc3339_utc, parse_fields, parse_line, parse_record, format_timestamp_utc, record_text,
}

-- A message that the log can hold.
pub record IsMessage (msg : Message) : Type 0 where
  pub named : 1 ≤ length msg.username
  pub short_name : length msg.username < max_username_len
  pub said : 1 ≤ length msg.content
  pub short_content : length msg.content < max_message_len
  pub name_text : is_valid_string msg.username ≡ true
  pub content_text : is_valid_string msg.content ≡ true
  pub plain_name : contains 124 msg.username ≡ false
  pub plain_content : contains 124 msg.content ≡ false

pub split_at-append :
    (c : ℕ) (s t : Bytes) → contains c s ≡ false → split_at c (s ++ c ∷ t) ≡ some (s, t)
unfolding split_at contains
split_at-append c [] t h = ground arith
split_at-append c (b ∷ s) t h = ground (arith, split_at-append c s t)

module _ (s : Bytes) where
  pub char_at-last : (b : ℕ) → char_at (s ++ b ∷ []) (length s) ≡ b
  char_at-last b = last s
    where
      last : (r : Bytes) → char_at (r ++ b ∷ []) (length r) ≡ b
      last [] = refl
      last (x ∷ r) = last r

-- What the C library does at one time stamp: the text is no longer than the 20 bytes of the
-- format, is not empty, has no separator and no line feed, and reads back as the same time, which is not -1.
pub record RoundTrips {Tm : Type 0} (gmtime : ℤ → Tm) (strftime : Tm → Bytes)
    (strptime : Bytes → Option (Tm × Bytes)) (timegm : Tm → ℤ) (ts : ℤ) : Type 0 where
  pub printed : 1 ≤ length (strftime (gmtime ts))
  pub short : length (strftime (gmtime ts)) ≤ 20
  pub plain : contains 124 (strftime (gmtime ts)) ≡ false
  pub one_line : contains 10 (strftime (gmtime ts)) ≡ false
  pub back : (tm : Tm) × (strptime (strftime (gmtime ts)) ≡ some (tm, [])) × (timegm tm ≡ ts)
  pub known : is_minus_one ts ≡ false

module _ {Tm : Type 0} (gmtime : ℤ → Tm) (strftime : Tm → Bytes) where
  pub length-record_text :
      (msg : Message)
      → length (record_text gmtime strftime msg)
        ≡ length (strftime (gmtime msg.timestamp)) + length msg.username + length msg.content + 3
  unfolding record_text format_timestamp_utc
  length-record_text msg = omega (
    arith,
    length-append (strftime (gmtime msg.timestamp))
        (124 ∷ msg.username ++ (124 ∷ msg.content ++ 10 ∷ [])),
    length-append msg.username (124 ∷ msg.content ++ 10 ∷ []),
    length-append msg.content (10 ∷ []),
  )

  unfoldable pub record_body : Message → Bytes
  record_body msg = strftime (gmtime msg.timestamp) ++ (124 ∷ msg.username ++ 124 ∷ msg.content)

  pub record_text-body :
      (msg : Message) → record_text gmtime strftime msg ≡ record_body msg ++ 10 ∷ []
  unfolding record_text format_timestamp_utc record_body
  record_text-body msg =
      rw
        (
          append_assoc (strftime (gmtime msg.timestamp)) (124 ∷ msg.username ++ 124 ∷ msg.content)
              (10 ∷ []),
          append_assoc msg.username (124 ∷ msg.content) (10 ∷ []),
        )
        refl

module _ {Tm : Type 0} (gmtime : ℤ → Tm) (strftime : Tm → Bytes)
    (strptime : Bytes → Option (Tm × Bytes)) (timegm : Tm → ℤ) where
  parse_timestamp-format :
      (ts : ℤ)
      → RoundTrips gmtime strftime strptime timegm ts
      → parse_rfc3339_utc strptime timegm (format_timestamp_utc gmtime strftime ts) ≡ ts
  unfolding parse_rfc3339_utc format_timestamp_utc
  parse_timestamp-format ts r = let (tm, read, same) = r.back in rw (parse_rfc3339_utc, read) same

  parse_line-fields :
      (stamp : Bytes) (msg : Message) (now : ℤ)
      → contains 124 stamp ≡ false
      → IsMessage msg
      → parse_line strptime timegm (stamp ++ (124 ∷ msg.username ++ 124 ∷ msg.content)) now
        ≡ parse_fields strptime timegm stamp msg.username msg.content now
  unfolding parse_line
  parse_line-fields stamp msg now h v =
      rw
        (
          parse_line,
          split_at-append 124 stamp (msg.username ++ 124 ∷ msg.content) h,
          split_at-append 124 msg.username msg.content v.plain_name,
          v.plain_content,
        )
        refl

  in_bounds-IsMessage :
      (stamp : Bytes) (msg : Message)
      → 1 ≤ length stamp
      → IsMessage msg
      → in_bounds stamp msg.username msg.content ≡ true
  unfolding in_bounds
  in_bounds-IsMessage stamp msg h v =
      rw (v.name_text, v.content_text)
        (ground (arith, v.named, v.said, v.short_name, v.short_content))

  parse_fields_lem :
      (msg : Message) (now : ℤ)
      → RoundTrips gmtime strftime strptime timegm msg.timestamp
      → IsMessage msg
      → in_window now msg.timestamp ≡ true
      → parse_fields strptime timegm
          (format_timestamp_utc gmtime strftime msg.timestamp)
          msg.username
          msg.content
          now
        ≡ some msg
  unfolding parse_fields format_timestamp_utc
  parse_fields_lem msg now r v w =
      rw
        (
          parse_fields,
          in_bounds-IsMessage (strftime (gmtime msg.timestamp)) msg r.printed v,
          parse_timestamp-format msg.timestamp r,
          r.known,
          w,
          take-all (max_username_len - 1) msg.username (omega (arith, v.short_name)),
          take-all (max_message_len - 1) msg.content (omega (arith, v.short_content)),
        )
        refl

  parse_record_line :
      (body : Bytes) (now : ℤ)
      → length body + 1 < max_line
      → parse_record strptime timegm (body ++ 10 ∷ []) now ≡ parse_line strptime timegm body now
  unfolding parse_record
  parse_record_line body now h =
      let size : length (body ++ 10 ∷ []) ≡ length body + 1 = length-append body (10 ∷ []) in
      let end : length body + 1 - 1 ≡ length body = omega arith in
      rw (parse_record, size, end, char_at-last body 10, take-length-append body (10 ∷ []))
        (ground arith)

  -- A message that the log can hold, in the window of the replay and at a time that the C library prints
  -- and reads back, is printed as one record that parses to the message.
  pub parse_record-record_text :
      (msg : Message) (now : ℤ)
      → RoundTrips gmtime strftime strptime timegm msg.timestamp
      → IsMessage msg
      → in_window now msg.timestamp ≡ true
      → parse_record strptime timegm (record_text gmtime strftime msg) now ≡ some msg
  unfolding record_body format_timestamp_utc
  parse_record-record_text msg now r v w =
      let size : length (record_body gmtime strftime msg) + 1 < max_line = omega (
        arith,
        ap length (record_text-body gmtime strftime msg),
        length-append (record_body gmtime strftime msg) (10 ∷ []),
        length-record_text gmtime strftime msg,
        r.short,
        v.short_name,
        v.short_content,
      ) in
      ap (λ t. parse_record strptime timegm t now) (record_text-body gmtime strftime msg)
      ∙ parse_record_line (record_body gmtime strftime msg) now size
      ∙ parse_line-fields (strftime (gmtime msg.timestamp)) msg now r.plain v
      ∙ parse_fields_lem msg now r v w
