-- ===== src/LogFile/Rotation.antt =====
-- src/message.c: what is in the two log files after any number of messages: the last ones, none missing between.
use mathlib.Core.List.{map}
use mathlib.Core.Path.{subst}
use tnt.Base.{
  ◌≤◌, true, List, [], ◌∷◌, ◌++◌, append_assoc, append-nil, leb, ltb, length, take, take-all, Bytes,
  Option, All, All-append_inv, ◌≡◌, ◌⊎◌, ◌<◌, refl, sym, ap, ◌∙◌, arith, if◌then◌else◌, Bool-cases,
  inl, inr,
}
use tnt.Base.Int.{ℤ}
use tnt.Room.{Message}
use tnt.MessageLog.{record_text, safe_message}
use tnt.MessageLog.Sanitize.{save_fits}
use tnt.LogFile.{Log, Disk, max_log_size, rotate, save, records}
use tnt.LogFile.Lines.{IsReplayed, logged, texts, texts-append, texts_one, records-texts}

-- Every call of the C library succeeds.
pub record IsWorking (disk : Disk) : Type 0 where
  pub opens : disk.opens ≡ true
  pub accepts : (text : Bytes) → length text ≤ disk.accepts text
  pub flushes : disk.flushes ≡ true
  pub renames : disk.renames ≡ true

-- `message_save` for one message after the other
abbrev pub save_all : {Tm : Type 0} → (ℤ → Tm) → (Tm → Bytes) → Disk → Log → List Message → Log
save_all gmtime strftime disk log [] = log
save_all gmtime strftime disk log (m ∷ ms) =
    save_all gmtime strftime disk (save gmtime strftime disk log m).1 ms

abbrev pub empty_log : Log
empty_log = record { file = []; backup = [] }

module _ {Tm : Type 0} (gmtime : ℤ → Tm) (strftime : Tm → Bytes)
    (strptime : Bytes → Option (Tm × Bytes)) (timegm : Tm → ℤ) (now : ℤ) where
  abbrev text_of : List Message → Bytes
  text_of = texts gmtime strftime strptime timegm now

  abbrev IsSaved : Message → Type 0
  IsSaved = IsReplayed gmtime strftime strptime timegm now

  -- The messages so far are some older ones, those of the backup, and those of the log.
  record Split (ms : List Message) (log : Log) : Type 0 where
    older : List Message
    middle : List Message
    newest : List Message
    whole : older ++ (middle ++ newest) ≡ ms
    file : text_of newest ≡ log.file
    backup : text_of middle ≡ log.backup
    within : length log.file ≤ max_log_size
    full : ((older ≡ []) × (middle ≡ [])) ⊎ (max_log_size < length log.backup)

  -- What the two files hold of the messages saved
  pub record IsKept (ms : List Message) (log : Log) : Type 0 where
    pub older : List Message
    pub middle : List Message
    pub newest : List Message
    pub whole : older ++ (middle ++ newest) ≡ ms
    pub file : records strptime timegm now log.file ≡ map logged newest
    pub backup : records strptime timegm now log.backup ≡ map logged middle
    pub within : length log.file ≤ max_log_size
    pub full : ((older ≡ []) × (middle ≡ [])) ⊎ (max_log_size < length log.backup)

rotate-working :
    (disk : Disk) (file backup : Bytes)
    → IsWorking disk
    → rotate disk file backup ≡ (
        if ltb max_log_size (length file)
        then record { file = []; backup = file }
        else record { file = file; backup = backup })
unfolding rotate
rotate-working disk file backup h = ground (arith, h.renames)

module _ {Tm : Type 0} (gmtime : ℤ → Tm) (strftime : Tm → Bytes)
    (strptime : Bytes → Option (Tm × Bytes)) (timegm : Tm → ℤ) (now : ℤ) (disk : Disk)
    (working : IsWorking disk) where
  save_text :
      (log : Log) (m : Message)
      → IsSaved gmtime strftime strptime timegm now m
      → save gmtime strftime disk log m ≡ (
        true,
        rotate disk (log.file ++ text_of gmtime strftime strptime timegm now (m ∷ [])) log.backup,
      )
  unfolding save rotate
  save_text log m v =
      let (plain_name, plain_content, (done, written, needed)) =
        save_fits gmtime strftime m v.trip.short in
      let text = record_text gmtime strftime (safe_message m) in
      let taken : take (disk.accepts text) text ≡ text =
        take-all (disk.accepts text) text (working.accepts text) in
      let enough : leb (length text) (disk.accepts text) ≡ true =
        ground (arith, working.accepts text) in
      rw (working.opens, done, needed, written, taken, enough, working.flushes)
        (ap (λ t. (true, rotate disk (log.file ++ t) log.backup))
          (texts_one gmtime strftime strptime timegm now m))

  save-Split :
      (ms : List Message) (log : Log) (m : Message)
      → IsSaved gmtime strftime strptime timegm now m
      → Split gmtime strftime strptime timegm now ms log
      → Split gmtime strftime strptime timegm now (ms ++ m ∷ []) (save gmtime strftime disk log m).1
  unfolding texts
  save-Split ms log m v r =
      let text = log.file ++ text_of gmtime strftime strptime timegm now (m ∷ []) in
      let longer : text_of gmtime strftime strptime timegm now (r.newest ++ m ∷ []) ≡ text =
        texts-append gmtime strftime strptime timegm now r.newest (m ∷ [])
        ∙ ap (λ t. t ++ text_of gmtime strftime strptime timegm now (m ∷ [])) r.file in
      let kept : r.older ++ (r.middle ++ (r.newest ++ m ∷ [])) ≡ ms ++ m ∷ [] =
        ap (λ t. r.older ++ t) (sym (append_assoc r.middle r.newest (m ∷ [])))
        ∙ sym (append_assoc r.older (r.middle ++ r.newest) (m ∷ []))
        ∙ ap (λ t. t ++ m ∷ []) r.whole in
      rw (save_text log m v, rotate-working disk text log.backup working)
        (elim (Bool-cases (ltb max_log_size (length text))) [
          | inl long ↦ rw long (record {
            older = r.older ++ r.middle;
            middle = r.newest ++ m ∷ [];
            newest = [];
            whole =
                append_assoc r.older r.middle ((r.newest ++ m ∷ []) ++ [])
                ∙ ap (λ t. r.older ++ (r.middle ++ t)) (append-nil (r.newest ++ m ∷ []))
                ∙ kept;
            file = refl;
            backup = longer;
            within = omega arith;
            full = inr (ground arith);
          })
          | inr room ↦ rw room (record {
            older = r.older;
            middle = r.middle;
            newest = r.newest ++ m ∷ [];
            whole = kept;
            file = longer;
            backup = r.backup;
            within = ground arith;
            full = r.full;
          })
        ])

  save_all-Split :
      (before ms : List Message) (log : Log)
      → All (IsSaved gmtime strftime strptime timegm now) ms
      → Split gmtime strftime strptime timegm now before log
      → Split gmtime strftime strptime timegm now
          (before ++ ms)
          (save_all gmtime strftime disk log ms)
  save_all-Split before [] log v r = rw (append-nil before) r
  save_all-Split before (m ∷ ms) log v r =
      subst
        (λ t.
          Split gmtime strftime strptime timegm now t (save_all gmtime strftime disk log (m ∷ ms)))
        (append_assoc before (m ∷ []) ms)
        (save_all-Split (before ++ m ∷ []) ms (save gmtime strftime disk log m).1 v.1
          (save-Split before log m v.0 r))

  -- Messages of valid UTF-8 that fit their arrays, saved to an empty log one after the other while
  -- every call of the C library succeeds, at times that it prints and reads back and that lie in the
  -- window of the replay, are read back with only the separators of their texts replaced: the log has
  -- the newest of them, the file that it was moved to those just before, each in their order and none
  -- missing between. The log is never larger than 10 MiB, and it has all messages unless the file that
  -- it was moved to is larger than that.
  pub save_all-IsKept :
      (ms : List Message)
      → All (IsSaved gmtime strftime strptime timegm now) ms
      → IsKept gmtime strftime strptime timegm now ms (save_all gmtime strftime disk empty_log ms)
  unfolding texts
  save_all-IsKept ms v =
      let r = save_all-Split [] ms empty_log v (record {
        older = [];
        middle = [];
        newest = [];
        whole = refl;
        file = refl;
        backup = refl;
        within = omega arith;
        full = inl (refl, refl);
      }) in
      let all : All (IsSaved gmtime strftime strptime timegm now)
          (r.older ++ (r.middle ++ r.newest)) =
        subst (All (IsSaved gmtime strftime strptime timegm now)) (sym r.whole) v in
      let later =
        (All-append_inv (IsSaved gmtime strftime strptime timegm now) r.older (r.middle ++ r.newest)
          all).1 in
      let (in_backup, in_log) =
        All-append_inv (IsSaved gmtime strftime strptime timegm now) r.middle r.newest later in
      record {
        older = r.older;
        middle = r.middle;
        newest = r.newest;
        whole = r.whole;
        file =
            ap (records strptime timegm now) (sym r.file)
            ∙ records-texts gmtime strftime strptime timegm now r.newest in_log;
        backup =
            ap (records strptime timegm now) (sym r.backup)
            ∙ records-texts gmtime strftime strptime timegm now r.middle in_backup;
        within = r.within;
        full = r.full;
      }
