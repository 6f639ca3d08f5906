-- ===== src/LogFile/Tests.antt =====
-- The theorems on the log file at a log of two records, one of which forges a third.
use tnt.Base.{true, length, refl, ◌||◌, [], ◌∷◌, Bool, Bytes, char_at, contains, codes, ◌≡◌, arith}
use tnt.Room.History.{last}
use tnt.MessageLog.Tests.{
  stamp, gmtime, strftime, strptime, timegm, forged, stamp-RoundTrips, forged-IsRecordable,
  stamp-in_window,
}
use tnt.LogFile.{Disk, search}
use tnt.LogFile.Rotation.{IsKept, empty_log, save_all, save_all-IsKept}
use tnt.LogFile.Lines.{IsReplayed}
use tnt.LogFile.Search.{filter, search_lem}

forged-IsReplayed : IsReplayed gmtime strftime strptime timegm stamp forged
forged-IsReplayed = record {
  trip = stamp-RoundTrips;
  text = forged-IsRecordable;
  recent = stamp-in_window;
}

-- One letter found, standing in for the whole query.
abbrev has_first : Bytes → Bytes → Bool
has_first s query = contains (char_at query 0) s

-- A disk on which everything succeeds
abbrev disk : Disk
disk = record { opens = true; accepts = length; flushes = true; renames = true }

save_all-IsKept_example :
    IsKept gmtime strftime strptime timegm stamp
      (forged ∷ forged ∷ [])
      (save_all gmtime strftime disk empty_log (forged ∷ forged ∷ []))
save_all-IsKept_example =
    save_all-IsKept gmtime strftime strptime timegm stamp disk
      (record { opens = refl; accepts = λ text. omega arith; flushes = refl; renames = refl })
      (forged ∷ forged ∷ []) (forged-IsReplayed, (forged-IsReplayed, tt))

search_lem_example :
    search has_first (codes "a") 2 (forged ∷ forged ∷ forged ∷ [])
    ≡ last 2 (
        filter
          (λ m. has_first m.username (codes "a") || has_first m.content (codes "a"))
          (forged ∷ forged ∷ forged ∷ []))
search_lem_example =
    search_lem has_first (codes "a") 2 (forged ∷ forged ∷ forged ∷ []) (omega arith) (omega arith)
