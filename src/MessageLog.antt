-- ===== src/MessageLog.antt =====
-- src/message_log.c and the log of src/message.c: one record is the line
-- `timestamp|username|content`. `gmtime_r`, `strftime`, `strptime` and `timegm` with the record's
-- format are parameters; `strptime` gives the broken-down time and what it left unread.
pub mod Format
pub mod Sanitize
pub mod Tests
use mathlib.Core.List.{map}
use tnt.Base.{
  ℕ, zero, suc, ◌+◌, ◌-◌, ◌*◌, ◌>>=◌, Bool, true, false, not, ◌&&◌, ◌||◌, List, [], ◌∷◌, ◌++◌,
  Option, none, some, ltb, leb, ◌==◌, if◌then◌else◌, length, take, Bytes, char_at, contains,
}
use tnt.Base.Int.{ℤ, pos, negsuc, ◌+ℤ◌, ◌-ℤ◌, ltb_ℤ}
use tnt.Utf8.{is_valid_string}
use tnt.Room.{Message}

abbrev pub max_line : ℕ
max_line = 2048

abbrev pub max_username_len : ℕ
max_username_len = 64

abbrev pub max_message_len : ℕ
max_message_len = 1024

-- `strchr(s, c)`: the bytes before the first `c` and those after it.
unfoldable pub split_at : ℕ → Bytes → Option (Bytes × Bytes)
split_at c [] = none
split_at c (b ∷ s) =
    let rest = split_at c s in
    if b == c
    then some ([], s)
    else elim rest [ none ↦ none | some parts ↦ some (b ∷ parts.0, parts.1) ]

abbrev is_minus_one : ℤ → Bool
is_minus_one n = elim n [ pos k ↦ false | negsuc k ↦ k == 0 ]

-- The checks on the three fields, once the separators are found.
in_bounds : Bytes → Bytes → Bytes → Bool
in_bounds timestamp_str username content =
    not (length timestamp_str == 0 || length username == 0 || length content == 0)
    && not (leb max_username_len (length username) || leb max_message_len (length content))
    && not (not (is_valid_string username) || not (is_valid_string content))

-- The window of a day ahead and ten years back.
pub in_window : ℤ → ℤ → Bool
in_window now msg_time =
    not (ltb_ℤ (now +ℤ pos 86400) msg_time || ltb_ℤ msg_time (now -ℤ pos (31536000 * 10)))

module _ {Tm : Type 0} (strptime : Bytes → Option (Tm × Bytes)) (timegm : Tm → ℤ) where
  pub parse_rfc3339_utc : Bytes → ℤ
  parse_rfc3339_utc timestamp_str = elim (strptime timestamp_str) [
    | none ↦ negsuc 0
    | some result ↦ if length result.1 == 0 then timegm result.0 else negsuc 0
  ]

  parse_fields : Bytes → Bytes → Bytes → ℤ → Option Message
  unfolding in_bounds in_window
  parse_fields timestamp_str username content now =
      let msg_time = parse_rfc3339_utc timestamp_str in
      if not (in_bounds timestamp_str username content)
      then none
      else if is_minus_one msg_time
      then none
      else if not (in_window now msg_time)
      then none
      else some (record {
        timestamp = msg_time;
        username = take (max_username_len - 1) username;
        content = take (max_message_len - 1) content;
      })

  parse_line : Bytes → ℤ → Option Message
  unfolding parse_fields
  parse_line line_copy now = do
    first ← split_at 124 line_copy
    second ← split_at 124 first.1
    if contains 124 second.1 then none else parse_fields first.0 second.0 second.1 now

  pub parse_record : Bytes → ℤ → Option Message
  unfolding parse_line
  parse_record line now =
      let line_len = length line in
      if line_len == 0 || not (char_at line (line_len - 1) == 10)
      then none
      else if leb max_line line_len
      then none
      else parse_line (take (line_len - 1) line) now

module _ {Tm : Type 0} (gmtime : ℤ → Tm) (strftime : Tm → Bytes) where
  pub format_timestamp_utc : ℤ → Bytes
  format_timestamp_utc ts = strftime (gmtime ts)

  -- What `snprintf` prints.
  pub record_text : Message → Bytes
  record_text msg =
      format_timestamp_utc msg.timestamp ++ (124 ∷ msg.username ++ (124 ∷ msg.content ++ 10 ∷ []))

  -- The buffer, `record_len`, and `true` for 0; a size of 0 only asks for the length.
  pub format_record : Message → ℕ → Bytes × ℕ × Bool
  format_record msg buf_size =
      let needed = length (record_text msg) in
      (take (buf_size - 1) (record_text msg), needed, buf_size == 0 || ltb needed buf_size)

-- What the two loops of `message_save` write over `|`, line feed and carriage return.
pub replace : ℕ → Bytes → Bytes
replace by s = map (λ c. if c == 124 || c == 10 || c == 13 then by else c) s

-- The copy that `message_save` prints into a record of 64 + 1024 + 48 bytes.
unfoldable pub safe_message : Message → Message
safe_message msg = record {
  timestamp = msg.timestamp;
  username = replace 95 (take (max_username_len - 1) msg.username);
  content = replace 32 (take (max_message_len - 1) msg.content);
}
