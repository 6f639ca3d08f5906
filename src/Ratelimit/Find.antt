-- ===== src/Ratelimit/Find.antt =====
-- The slot that `get_rate_limit_entry` returns.
use mathlib.Core.Path.{subst}
use tnt.Base.{
  ℕ, zero, suc, ◌+◌, ◌≤◌, ◌<◌, true, [], ◌∷◌, none, some, length, set, Bytes, equal, ◌≡◌, refl, sym,
  ap, ◌∙◌, arith, inl, inr, Bool-cases, Option-cases, equal→eq, equal_refl, take-all,
}
use tnt.Ratelimit.Victim.{victim_bound}
use tnt.Ratelimit.{
  IpRateLimit, Table, ip_size, fresh, entry_at, find_entry, find_empty, victim, get_entry,
}

-- Where a search that starts to count at `i` ends.
find_entry_found :
    (ip : Bytes) (es : Table) (i k : ℕ)
    → find_entry ip es i ≡ some k
    → (n : ℕ) × (k ≡ i + n) × (n < length es) × ((entry_at es n).ip ≡ ip)
unfolding find_entry
find_entry_found ip [] i k h = cc
find_entry_found ip (e ∷ es) i k h = elim (Bool-cases (equal e.ip ip)) [
  | inl here ↦ (0, ground arith, omega arith, equal→eq e.ip ip here)
  | inr further ↦
      let (n, at, bound, same) = find_entry_found ip es (i + 1) k (rw further at h) in
      (suc n, omega arith, omega arith, same)
]

-- A new value with the same address, at the slot that was found, is found again.
find_entry-set :
    (ip : Bytes) (es : Table) (i n : ℕ) (e' : IpRateLimit)
    → find_entry ip es i ≡ some (i + n)
    → e'.ip ≡ ip
    → find_entry ip (set es n e') i ≡ some (i + n)
unfolding find_entry
find_entry-set ip [] i n e' h same = cc
find_entry-set ip (e ∷ es) i zero e' h same =
    ground (arith, subst (λ t. equal t ip ≡ true) (sym same) (equal_refl ip))
find_entry-set ip (e ∷ es) i (suc n) e' h same = ground (arith, find_entry-set ip es (i + 1) n e')

-- So is one that takes the place of another address.
find_entry-set_new :
    (ip : Bytes) (es : Table) (i n : ℕ) (e' : IpRateLimit)
    → find_entry ip es i ≡ none
    → n < length es
    → e'.ip ≡ ip
    → find_entry ip (set es n e') i ≡ some (i + n)
unfolding find_entry
find_entry-set_new ip [] i n e' h b same = absurd (omega arith)
find_entry-set_new ip (e ∷ es) i zero e' h b same =
    ground (arith, subst (λ t. equal t ip ≡ true) (sym same) (equal_refl ip))
find_entry-set_new ip (e ∷ es) i (suc n) e' h b same =
    ground (arith, find_entry-set_new ip es (i + 1) n e')

pub find_empty_found :
    (es : Table) (i k : ℕ)
    → find_empty es i ≡ some k
    → (n : ℕ) × (k ≡ i + n) × (n < length es) × ((entry_at es n).ip ≡ [])
unfolding find_empty
find_empty_found [] i k h = cc
find_empty_found (e ∷ es) i k h = elim (Bool-cases (equal e.ip [])) [
  | inl here ↦ (0, ground arith, omega arith, equal→eq e.ip [] here)
  | inr further ↦
      let (n, at, bound, same) = find_empty_found es (i + 1) k (rw further at h) in
      (suc n, omega arith, omega arith, same)
]

-- What `get_rate_limit_entry` gives: a slot for the address, and the table with it.
pub record Tracked (ip : Bytes) (table : Table) (i : ℕ) : Type 0 where
  pub found : find_entry ip table 0 ≡ some i
  pub bound : i < length table
  pub named : (entry_at table i).ip ≡ ip

pub find_entry-Tracked :
    (ip : Bytes) (table : Table) (i : ℕ) → find_entry ip table 0 ≡ some i → Tracked ip table i
find_entry-Tracked ip table i h =
    let (n, at, bound, same) = find_entry_found ip table 0 i h in
    let e : i ≡ n = omega arith in record { found = h; bound = omega arith; named = rw e same }

pub entry_at-set :
    (table : Table) (i : ℕ) (e : IpRateLimit) → i < length table → entry_at (set table i e) i ≡ e
entry_at-set [] i e h = absurd (omega arith)
entry_at-set (x ∷ table) zero e h = refl
entry_at-set (x ∷ table) (suc i) e h = entry_at-set table i e (omega arith)

-- Writing a slot of the address keeps the address there.
pub Tracked-set :
    (ip : Bytes) (table : Table) (i : ℕ) (e : IpRateLimit)
    → Tracked ip table i
    → e.ip ≡ ip
    → Tracked ip (set table i e) i
Tracked-set ip table i e t same =
    find_entry-Tracked ip (set table i e) i
      (find_entry-set ip table 0 i e (t.found ∙ ap some (omega arith)) same ∙ ap some (omega arith))

Tracked-new :
    (ip : Bytes) (clock : ℕ) (table : Table) (i : ℕ)
    → length ip < ip_size
    → find_entry ip table 0 ≡ none
    → i < length table
    → Tracked ip (set table i (fresh ip clock)) i
Tracked-new ip clock table i short missing bound =
    find_entry-Tracked ip (set table i (fresh ip clock)) i (
      find_entry-set_new ip table 0 i (fresh ip clock) missing bound (take-all 45 ip (omega arith))
      ∙ ap some (omega arith))

-- For every address that fits its field, the returned slot holds that address.
pub get_entry-Tracked :
    (ip : Bytes) (clock : ℕ) (table : Table)
    → length ip < ip_size
    → 1 ≤ length table
    → Tracked ip (get_entry ip clock table).1 (get_entry ip clock table).0
unfolding get_entry
get_entry-Tracked ip clock table short some_slot = elim (Option-cases (find_entry ip table 0)) [
  | inr (i, found) ↦ rw (found, get_entry) (find_entry-Tracked ip table i found)
  | inl missing ↦ elim (Option-cases (find_empty table 0)) [
    | inr (i, free) ↦
        let (n, at, bound, empty) = find_empty_found table 0 i free in
        rw (missing, get_entry)
          (rw (free, get_entry) (Tracked-new ip clock table i short missing (omega arith)))
    | inl full ↦
        rw (missing, get_entry)
          (rw (full, get_entry)
            (Tracked-new ip clock table (victim table) short missing
              (victim_bound table some_slot)))
  ]
]

-- An address that has its slot gets that slot, and the table stays.
pub get_entry-Tracked' :
    (ip : Bytes) (clock : ℕ) (table : Table) (i : ℕ)
    → Tracked ip table i
    → get_entry ip clock table ≡ (i, table)
unfolding get_entry
get_entry-Tracked' ip clock table i t = rw (t.found, get_entry)
