-- ===== src/MessageLog/Sanitize.antt =====
-- What `message_save` writes is one record, whatever the message says, and reads back.
use mathlib.Core.Path.{subst}
use tnt.Base.{
  ℕ, ◌-◌, ◌≤◌, ◌<◌, ◌⊎◌, true, false, ◌||◌, List, [], ◌∷◌, ◌++◌, Option, some, lt→ltb, ◌==◌,
  if◌then◌else◌, length, take, take-all, length-take, length-map, Bytes, contains, All, IsCString,
  ◌≡◌, refl, sym, ap, ◌∙◌, arith, inl, inr,
}
use tnt.Base.Int.{ℤ}
use tnt.Utf8.{is_valid_string}
use tnt.Utf8.Spec.{IsScalar, IsUtf8, encoding, encode_all}
use tnt.Utf8.Text.{is_valid_string_iff}
use tnt.Room.{Message}
use tnt.MessageLog.{
  max_username_len, max_message_len, in_window, parse_record, record_text, format_record, replace,
  safe_message,
}
use tnt.MessageLog.Format.{IsMessage, RoundTrips, length-record_text, parse_record-record_text}

-- No byte that would end a field or the record.
abbrev pub IsField : Bytes → Type 0
IsField s = (contains 124 s ≡ false) × (contains 10 s ≡ false) × (contains 13 s ≡ false)

module _ (by : ℕ) (h : (by ≡ 95) ⊎ (by ≡ 32)) where
  pub replace-IsField : (s : Bytes) → IsField (replace by s)
  unfolding replace contains
  replace-IsField [] = (refl, refl, refl)
  replace-IsField (b ∷ s) = ground (arith, replace-IsField s, h)

  replace-append : (s t : Bytes) → replace by (s ++ t) ≡ replace by s ++ replace by t
  unfolding replace
  replace-append [] t = refl
  replace-append (b ∷ s) t =
      ap (◌∷◌ (if b == 124 || b == 10 || b == 13 then by else b)) (replace-append s t)

  replace-IsCString : (s : Bytes) → IsCString s → IsCString (replace by s)
  unfolding replace
  replace-IsCString [] c = tt
  replace-IsCString (b ∷ s) c = ground (arith, replace-IsCString s c.1, c.0, h)

  point : ℕ → ℕ
  point cp = if cp == 124 || cp == 10 || cp == 13 then by else cp

  point-IsScalar : (cp : ℕ) → IsScalar cp → IsScalar (point cp)
  unfolding point
  point-IsScalar cp s = ground (arith, h)

  -- Only ASCII changes, so every sequence of several bytes stays whole.
  replace-encoding : (cp : ℕ) → IsScalar cp → replace by (encoding cp) ≡ encoding (point cp)
  unfolding replace point
  replace-encoding cp s = ground (arith, h)

  replace-IsUtf8 : (cps : List ℕ) → All IsScalar cps → IsUtf8 (replace by (encode_all cps))
  unfolding replace
  replace-IsUtf8 [] a = record { points = []; scalars = tt; spells = refl }
  replace-IsUtf8 (cp ∷ cps) a =
      let rest = replace-IsUtf8 cps a.1 in
      record {
        points = point cp ∷ rest.points;
        scalars = (point-IsScalar cp a.0, rest.scalars);
        spells =
            ap (λ t. encoding (point cp) ++ t) rest.spells
            ∙ ap (λ t. t ++ replace by (encode_all cps)) (sym (replace-encoding cp a.0))
            ∙ sym (replace-append (encoding cp) (encode_all cps));
      }

  replace-valid :
      (s : Bytes) → IsCString s → is_valid_string s ≡ true → is_valid_string (replace by s) ≡ true
  replace-valid s c v =
      let u = (is_valid_string_iff s c).0 v in
      (is_valid_string_iff (replace by s) (replace-IsCString s c)).1
        (subst (λ t. IsUtf8 (replace by t)) u.spells (replace-IsUtf8 u.points u.scalars))

  length-replace : (s : Bytes) → length (replace by s) ≡ length s
  unfolding replace
  length-replace s = length-map s (λ c. if c == 124 || c == 10 || c == 13 then by else c)

-- What the caller of `message_save` hands over: two C strings of valid UTF-8 in their arrays.
pub record IsRecordable (msg : Message) : Type 0 where
  pub name_bytes : IsCString msg.username
  pub content_bytes : IsCString msg.content
  pub name_text : is_valid_string msg.username ≡ true
  pub content_text : is_valid_string msg.content ≡ true
  pub named : 1 ≤ length msg.username
  pub short_name : length msg.username < max_username_len
  pub said : 1 ≤ length msg.content
  pub short_content : length msg.content < max_message_len

safe_message_lem :
    (msg : Message)
    → IsRecordable msg
    → safe_message msg
      ≡ record msg { username = replace 95 msg.username; content = replace 32 msg.content }
unfolding safe_message
safe_message_lem msg v =
    rw
      (
        take-all (max_username_len - 1) msg.username (omega (arith, v.short_name)),
        take-all (max_message_len - 1) msg.content (omega (arith, v.short_content)),
      )
      refl

pub safe_message-IsMessage : (msg : Message) → IsRecordable msg → IsMessage (safe_message msg)
safe_message-IsMessage msg v =
    let same_name = length-replace 95 (inl refl) msg.username in
    let same_content = length-replace 32 (inr refl) msg.content in
    subst IsMessage (sym (safe_message_lem msg v)) (record {
      named = omega (arith, same_name, v.named);
      short_name = omega (arith, same_name, v.short_name);
      said = omega (arith, same_content, v.said);
      short_content = omega (arith, same_content, v.short_content);
      name_text = replace-valid 95 (inl refl) msg.username v.name_bytes v.name_text;
      content_text = replace-valid 32 (inr refl) msg.content v.content_bytes v.content_text;
      plain_name = (replace-IsField 95 (inl refl) msg.username).0;
      plain_content = (replace-IsField 32 (inr refl) msg.content).0;
    })

module _ {Tm : Type 0} (gmtime : ℤ → Tm) (strftime : Tm → Bytes) where
  -- Whatever bytes the user name and the content hold, with a time stamp of at most 20 bytes the
  -- copy that is logged has no separator, line feed or carriage return in a field, and its record
  -- fits the buffer of 1136 bytes whole.
  pub save_fits :
      (msg : Message)
      → length (strftime (gmtime msg.timestamp)) ≤ 20
      → IsField (safe_message msg).username
        × IsField (safe_message msg).content
        × (let (written, needed, done) = format_record gmtime strftime (safe_message msg) 1136 in
            (done ≡ true)
            × (written ≡ record_text gmtime strftime (safe_message msg))
            × (needed ≡ length written))
  unfolding format_record safe_message
  save_fits msg h =
      let name = take (max_username_len - 1) msg.username in
      let content = take (max_message_len - 1) msg.content in
      let text = record_text gmtime strftime (safe_message msg) in
      let size : length text < 1136 = omega (
        arith,
        length-record_text gmtime strftime (safe_message msg),
        length-replace 95 (inl refl) name,
        length-replace 32 (inr refl) content,
        length-take (max_username_len - 1) msg.username,
        length-take (max_message_len - 1) msg.content,
      ) in
      let whole : take 1135 text ≡ text = take-all 1135 text (omega arith) in
      (
        replace-IsField 95 (inl refl) name,
        replace-IsField 32 (inr refl) content,
        (lt→ltb (length text) 1136 size, whole, ap length (sym whole)),
      )

module _ {Tm : Type 0} (gmtime : ℤ → Tm) (strftime : Tm → Bytes)
    (strptime : Bytes → Option (Tm × Bytes)) (timegm : Tm → ℤ) where
  -- A message of valid UTF-8 that is not empty and fits its arrays, at a time that the C library prints and reads
  -- back and in the window of the replay, is read back from the record that is saved, with the
  -- separators of its text replaced and everything else as it was.
  pub parse_record-save :
      (msg : Message) (now : ℤ)
      → RoundTrips gmtime strftime strptime timegm msg.timestamp
      → IsRecordable msg
      → in_window now msg.timestamp ≡ true
      → parse_record strptime timegm (record_text gmtime strftime (safe_message msg)) now
        ≡ some (record msg { username = replace 95 msg.username; content = replace 32 msg.content })
  unfolding safe_message
  parse_record-save msg now r v w =
      parse_record-record_text gmtime strftime strptime timegm (safe_message msg) now r
        (safe_message-IsMessage msg v) w
      ∙ ap some (safe_message_lem msg v)
