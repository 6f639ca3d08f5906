-- ===== src/Ratelimit/Inv.antt =====
-- The invariant of the table of addresses, and that every operation keeps it.
use tnt.Base.{
  ℕ, zero, suc, ◌≤◌, ◌<◌, Bool, true, false, [], ◌∷◌, if◌then◌else◌, length, set, Bytes, ◌≡◌, ◌≢◌,
  refl, sym, ◌∙◌, arith, inl, inr, Option-cases, length-set, All, replicate, length-replicate,
}
use tnt.Ratelimit.{
  IpRateLimit, Limits, Table, initial, max_tracked_ips, ip_size, fresh, unused, entry_at,
  find_entry, find_empty, victim, get_entry, check_entry, check_ip, release_entry, release_ip,
  fail_entry, record_auth_failure,
}
use tnt.Ratelimit.Find.{get_entry-Tracked}

-- What every slot satisfies: a free one counts no connection, and none counts too many.
abbrev pub Sound : Limits → IpRateLimit → Type 0
Sound limits e =
    (e.ip ≡ [] → e.active_connections ≡ 0) × (e.active_connections ≤ limits.max_conn_per_ip)

pub record IsTable (limits : Limits) (table : Table) : Type 0 where
  pub size : length table ≡ max_tracked_ips
  pub sound : All (Sound limits) table

module _ (P : IpRateLimit → Type 0) where
  pub All-set :
      (table : Table) (i : ℕ) (e : IpRateLimit) → All P table → P e → All P (set table i e)
  All-set [] i e a h = tt
  All-set (x ∷ table) zero e a h = (h, a.1)
  All-set (x ∷ table) (suc i) e a h = (a.0, All-set table i e a.1 h)

  pub All-entry_at : (table : Table) (i : ℕ) → i < length table → All P table → P (entry_at table i)
  All-entry_at [] i h a = absurd (omega arith)
  All-entry_at (x ∷ table) zero h a = a.0
  All-entry_at (x ∷ table) (suc i) h a = All-entry_at table i (omega arith) a.1

module _ (limits : Limits) where
  set-IsTable :
      (table : Table) (i : ℕ) (e : IpRateLimit)
      → IsTable limits table
      → Sound limits e
      → IsTable limits (set table i e)
  set-IsTable table i e t h = record {
    size = length-set table i e ∙ t.size;
    sound = All-set (Sound limits) table i e t.sound h;
  }

  fresh-Sound : (ip : Bytes) (clock : ℕ) → Sound limits (fresh ip clock)
  fresh-Sound ip clock = ((λ _. refl), omega arith)

  pub get_entry-IsTable :
      (ip : Bytes) (clock : ℕ) (table : Table)
      → IsTable limits table
      → IsTable limits (get_entry ip clock table).1
  unfolding get_entry
  get_entry-IsTable ip clock table t = elim (Option-cases (find_entry ip table 0)) [
    | inr (i, found) ↦ rw (found, get_entry) t
    | inl missing ↦ elim (Option-cases (find_empty table 0)) [
      | inr (i, spare) ↦
          rw (missing, get_entry)
            (rw (spare, get_entry) (set-IsTable table i (fresh ip clock) t (fresh-Sound ip clock)))
      | inl full ↦
          rw (missing, get_entry)
            (rw (full, get_entry)
              (set-IsTable table (victim table) (fresh ip clock) t (fresh-Sound ip clock)))
    ]
  ]

-- No operation changes the address of an entry.
pub check_entry-ip :
    (limits : Limits) (now : ℕ) (e : IpRateLimit) → (check_entry limits now e).0.ip ≡ e.ip
unfolding check_entry
check_entry-ip limits now e = ground arith

pub fail_entry-ip : (now : ℕ) (e : IpRateLimit) → (fail_entry now e).ip ≡ e.ip
unfolding fail_entry
fail_entry-ip now e = ground arith

pub release_entry-ip : (e : IpRateLimit) → (release_entry e).ip ≡ e.ip
unfolding release_entry
release_entry-ip e = ground arith

-- The changes keep the count of active connections within the limit.
module _ (limits : Limits) (now : ℕ) (e : IpRateLimit)
    (h : e.active_connections ≤ limits.max_conn_per_ip) where
  check_entry_bound : (check_entry limits now e).0.active_connections ≤ limits.max_conn_per_ip
  unfolding check_entry
  check_entry_bound = ground arith

  fail_entry_bound : (fail_entry now e).active_connections ≤ limits.max_conn_per_ip
  unfolding fail_entry
  fail_entry_bound = ground arith

  release_entry_bound : (release_entry e).active_connections ≤ limits.max_conn_per_ip
  unfolding release_entry
  release_entry_bound = ground arith

-- The slot of a given address, changed by a function that keeps the address and the bound.
module _ (limits : Limits) (change : IpRateLimit → IpRateLimit)
    (keeps : (e : IpRateLimit) → (change e).ip ≡ e.ip)
    (bounds : (e : IpRateLimit)
      → e.active_connections ≤ limits.max_conn_per_ip
      → (change e).active_connections ≤ limits.max_conn_per_ip)
    (ip : Bytes) (clock : ℕ) (table : Table) where
  slot-IsTable :
      ip ≢ []
      → length ip < ip_size
      → IsTable limits table
      → IsTable limits (
          set
            (get_entry ip clock table).1
            (get_entry ip clock table).0
            (change (entry_at (get_entry ip clock table).1 (get_entry ip clock table).0)))
  slot-IsTable named short t =
      let r = get_entry-Tracked ip clock table short (omega (arith, t.size)) in
      let t' = get_entry-IsTable limits ip clock table t in
      let e = entry_at (get_entry ip clock table).1 (get_entry ip clock table).0 in
      set-IsTable limits (get_entry ip clock table).1 (get_entry ip clock table).0 (change e) t' (
        (λ q. absurd (named (sym r.named ∙ sym (keeps e) ∙ q))),
        bounds e
            (All-entry_at (Sound limits) (get_entry ip clock table).1 (get_entry ip clock table).0
              r.bound t'.sound).1,
      )

if-IsTable :
    {limits : Limits} (b : Bool) {s t : Table}
    → IsTable limits s
    → IsTable limits t
    → IsTable limits (if b then s else t)
if-IsTable true h k = h
if-IsTable false h k = k

-- A table of 256 slots, where free slots count nothing and no address counts more active
-- connections than it may have, stays one under every operation at an address that is not empty
-- and fits its field.
pub operations-IsTable :
    (limits : Limits) (now clock : ℕ) (ip : Bytes) (table : Table)
    → ip ≢ []
    → length ip < ip_size
    → IsTable limits table
    → IsTable limits (check_ip limits now clock ip table).0
      × IsTable limits (record_auth_failure limits now clock ip table)
      × IsTable limits (release_ip clock ip table)
unfolding check_ip record_auth_failure release_ip
operations-IsTable limits now clock ip table named short t = (
  slot-IsTable limits (λ e. (check_entry limits now e).0) (check_entry-ip limits now)
      (check_entry_bound limits now) ip clock table named short t,
  if-IsTable _ t (
      slot-IsTable limits (fail_entry now) (fail_entry-ip now) (fail_entry_bound limits now) ip
        clock table named short t),
  if-IsTable _ t (
      slot-IsTable limits release_entry release_entry-ip (release_entry_bound limits now) ip clock
        table named short t),
)

replicate-All : (limits : Limits) (n : ℕ) → All (Sound limits) (replicate n unused)
replicate-All limits zero = tt
replicate-All limits (suc n) = (((λ _. refl), omega arith), replicate-All limits n)

-- The table as the program starts satisfies the invariant.
pub initial-IsTable : (limits : Limits) → IsTable limits initial
unfolding initial
initial-IsTable limits = record {
  size = length-replicate max_tracked_ips unused;
  sound = replicate-All limits max_tracked_ips;
}
