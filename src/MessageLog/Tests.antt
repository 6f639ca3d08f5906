-- ===== src/MessageLog/Tests.antt =====
-- The theorems on the log at a concrete message, with a C library that knows one time stamp.
use tnt.Base.{
  [], ◌∷◌, Option, some, true, contains, IsCString, Bytes, codes, length, ◌≡◌, refl, arith,
}
use tnt.Base.Int.{ℤ, pos, ◌+ℤ◌, ◌-ℤ◌}
use tnt.Utf8.{is_valid_string}
use tnt.Utf8.Text.{is_valid_string_iff}
use tnt.Room.{Message}
use tnt.MessageLog.{in_window, parse_record, record_text, format_record, replace, safe_message}
use tnt.MessageLog.Format.{IsMessage, RoundTrips}
use tnt.MessageLog.Sanitize.{IsField, IsRecordable, save_fits, parse_record-save}

-- 2026-01-01T00:00:00Z
abbrev pub stamp : ℤ
stamp = pos 1767225600

abbrev pub gmtime : ℤ → ℤ
gmtime ts = ts

abbrev pub strftime : ℤ → Bytes
strftime tm = codes "2026-01-01T00:00:00Z"

abbrev pub strptime : Bytes → Option (ℤ × Bytes)
strptime s = some (stamp, [])

abbrev pub timegm : ℤ → ℤ
timegm tm = tm

abbrev hello : Message
hello = record { timestamp = stamp; username = codes "ann"; content = codes "hi" }

-- A message that tries to write a second record.
abbrev pub forged : Message
forged = record { timestamp = stamp; username = codes "ann"; content = 104 ∷ 10 ∷ 124 ∷ 105 ∷ [] }

pub stamp-RoundTrips : RoundTrips gmtime strftime strptime timegm stamp
unfolding contains
stamp-RoundTrips = record {
  printed = omega arith;
  short = omega arith;
  plain = refl;
  one_line = refl;
  back = (stamp, refl, refl);
  known = refl;
}

name_bytes : IsCString (codes "ann")
name_bytes = omega arith

hi_bytes : IsCString (codes "hi")
hi_bytes = omega arith

forged_bytes : IsCString forged.content
forged_bytes = omega arith

name_text : is_valid_string (codes "ann") ≡ true
name_text =
    (is_valid_string_iff (codes "ann") name_bytes).1
      (record { points = codes "ann"; scalars = omega arith; spells = refl })

hi_text : is_valid_string (codes "hi") ≡ true
hi_text =
    (is_valid_string_iff (codes "hi") hi_bytes).1
      (record { points = codes "hi"; scalars = omega arith; spells = refl })

forged_text : is_valid_string forged.content ≡ true
forged_text =
    (is_valid_string_iff forged.content forged_bytes).1
      (record { points = forged.content; scalars = omega arith; spells = refl })

hello-IsMessage : IsMessage hello
unfolding contains
hello-IsMessage = record {
  named = omega arith;
  short_name = omega arith;
  said = omega arith;
  short_content = omega arith;
  name_text = name_text;
  content_text = hi_text;
  plain_name = refl;
  plain_content = refl;
}

pub forged-IsRecordable : IsRecordable forged
forged-IsRecordable = record {
  name_bytes = name_bytes;
  content_bytes = forged_bytes;
  name_text = name_text;
  content_text = forged_text;
  named = omega arith;
  short_name = omega arith;
  said = omega arith;
  short_content = omega arith;
}

pub stamp-in_window : in_window stamp stamp ≡ true
unfolding in_window ◌+ℤ◌ ◌-ℤ◌
stamp-in_window = refl

save_fits_example :
    IsField (safe_message forged).username
    × IsField (safe_message forged).content
    × (let (written, needed, done) = format_record gmtime strftime (safe_message forged) 1136 in
        (done ≡ true)
        × (written ≡ record_text gmtime strftime (safe_message forged))
        × (needed ≡ length written))
save_fits_example = save_fits gmtime strftime forged (omega arith)

parse_record-save_example :
    parse_record strptime timegm (record_text gmtime strftime (safe_message forged)) stamp
    ≡ some (record forged {
      username = replace 95 forged.username;
      content = replace 32 forged.content;
    })
parse_record-save_example =
    parse_record-save gmtime strftime strptime timegm forged stamp stamp-RoundTrips
      forged-IsRecordable stamp-in_window
