-- ===== src/LogFile.antt =====
-- The reading and writing of the log in src/message.c. The file is the list of its bytes, none of
-- them NUL; a `FILE *` is what is left of it to read. The three readers share one loop, `records`,
-- and differ in what they do with a record. Its fuel is the length of the file, and every round
-- reads a byte.
pub mod Lines
pub mod Rotation
pub mod Search
mod Tests
use mathlib.Core.List.{map}
use tnt.Base.{
  ℕ, zero, suc, ◌+◌, ◌-◌, Bool, true, false, not, ◌&&◌, ◌||◌, List, [], ◌∷◌, ◌++◌, Option, none,
  some, ltb, leb, ◌==◌, if◌then◌else◌, length, take, drop, Bytes, char_at,
}
use tnt.Base.Int.{ℤ}
use tnt.Room.{Message}
use tnt.MessageLog.{max_line, parse_record, format_record, safe_message}

-- `fgets` with room for a NUL and `room` bytes: up to a line feed, which it keeps.
fgets_up_to : ℕ → Bytes → Bytes × Bytes
fgets_up_to zero file = ([], file)
fgets_up_to (suc room) [] = ([], [])
fgets_up_to (suc room) (c ∷ file) =
    let rest = fgets_up_to room file in if c == 10 then (c ∷ [], file) else (c ∷ rest.0, rest.1)

-- `fgets(line, size, fp)`
pub fgets : ℕ → Bytes → Bytes × Bytes
unfolding fgets_up_to
fgets size file = fgets_up_to (size - 1) file

pub discard_line_remainder : Bytes → Bytes
discard_line_remainder [] = []
discard_line_remainder (c ∷ file) =
    let rest = discard_line_remainder file in if c == 10 then file else rest

-- A line that fills the buffer without its line feed.
oversized : Bytes → Bool
oversized line =
    let line_len = length line in
    leb (max_line - 1) line_len && not (char_at line (line_len - 1) == 10)

module _ {Tm : Type 0} (strptime : Bytes → Option (Tm × Bytes)) (timegm : Tm → ℤ) (now : ℤ) where
  -- What a line gives, and where the reading goes on.
  read_record : Bytes × Bytes → Option Message × Bytes
  unfolding oversized
  read_record (line, rest) =
      if oversized line
      then (none, discard_line_remainder rest)
      else (parse_record strptime timegm line now, rest)

  records_from : ℕ → Bytes → List Message
  unfolding read_record
  records_from zero file = []
  records_from (suc fuel) [] = []
  records_from (suc fuel) (c ∷ file) =
      let read = read_record (fgets max_line (c ∷ file)) in
      let later = records_from fuel read.1 in elim read.0 [ none ↦ later | some m ↦ m ∷ later ]

  pub records : Bytes → List Message
  unfolding records_from
  records file = records_from (length file) file

-- `MAX_LOG_SIZE`, 10 MiB
abbrev pub max_log_size : ℕ
max_log_size = 10485760

-- The log, and the older one that it was moved to.
pub record Log : Type 0 where
  pub file : Bytes
  pub backup : Bytes

-- What the C library answers: whether the log has a path and opens, how many bytes of a record reach
-- the file, whether `fflush` succeeds, and whether `rename` does.
pub record Disk : Type 0 where
  pub opens : Bool
  pub accepts : Bytes → ℕ
  pub flushes : Bool
  pub renames : Bool

-- The rotation, by the length that `ftell` finds
unfoldable rotate : Disk → Bytes → Bytes → Log
rotate disk file backup =
    if ltb max_log_size (length file) && disk.renames
    then record { file = []; backup = file }
    else record { file = file; backup = backup }

-- `message_save`; `true` for 0. A record that does not fit its buffer is not written.
module _ {Tm : Type 0} (gmtime : ℤ → Tm) (strftime : Tm → Bytes) where
  unfoldable save : Disk → Log → Message → Bool × Log
  save disk log msg =
      let (text, record_len, fits) = format_record gmtime strftime (safe_message msg) 1136 in
      let written = if fits then take (disk.accepts text) text else [] in
      if disk.opens
      then (
        fits && leb record_len (disk.accepts text) && disk.flushes,
        rotate disk (log.file ++ written) log.backup,
      )
      else (false, log)

-- The room that `message_search` makes for one more hit: the oldest of a full array leaves.
pub search_add : ℕ → List Message → Message → List Message
search_add max_results res m =
    if ltb (length res) max_results
    then res ++ m ∷ []
    else take (max_results - 1) (drop 1 res) ++ m ∷ []

module _ (strcasestr : Bytes → Bytes → Bool) (query : Bytes) where
  pub matches : Message → Bool
  matches m = not (not (strcasestr m.username query) && not (strcasestr m.content query))

module _ (strcasestr : Bytes → Bytes → Bool) (query : Bytes) (max_results : ℕ) where
  search_loop : List Message → List Message → List Message
  unfolding matches search_add
  search_loop res [] = res
  search_loop res (m ∷ ms) =
      search_loop (if matches strcasestr query m then search_add max_results res m else res) ms

  -- `message_search` on the records of the log; an empty query finds nothing.
  pub search : List Message → List Message
  unfolding search_loop
  search ms = if length query == 0 then [] else search_loop [] ms
