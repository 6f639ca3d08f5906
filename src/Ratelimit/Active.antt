-- ===== src/Ratelimit/Active.antt =====
-- How many connections the table counts for an address, before and after each operation.
use tnt.Base.{
  ℕ, zero, suc, ◌+◌, ◌-◌, ◌≤◌, ◌<◌, true, ◌&&◌, [], ◌∷◌, if◌then◌else◌, length, set, Bytes, equal,
  ◌≡◌, ◌≢◌, ◌∙◌, arith, inl, inr, Bool-cases, Option-cases, equal→eq,
}
use tnt.Ratelimit.{
  IpRateLimit, Limits, Table, ip_size, fresh, entry_at, find_entry, find_empty, victim, get_entry,
  check_entry, check_ip, release_entry, release_ip,
}
use tnt.Ratelimit.Inv.{Sound, IsTable, All-entry_at, check_entry-ip, release_entry-ip}
use tnt.Ratelimit.Victim.{victim_bound, victim_idle}
use tnt.Ratelimit.Find.{
  get_entry-Tracked', Tracked-set, entry_at-set, Tracked, get_entry-Tracked, find_empty_found,
}

-- What one entry adds to the count of address `j`.
abbrev share : Bytes → IpRateLimit → ℕ
share j e = if equal e.ip j then e.active_connections else 0

-- The connections that the table counts for address `j`.
abbrev pub active_of : Bytes → Table → ℕ
active_of j [] = 0
active_of j (e ∷ es) = share j e + active_of j es

active_of-set :
    (j : Bytes) (table : Table) (i : ℕ) (e : IpRateLimit)
    → i < length table
    → active_of j (set table i e) + share j (entry_at table i) ≡ active_of j table + share j e
active_of-set j [] i e h = absurd (omega arith)
active_of-set j (x ∷ table) zero e h = omega arith
active_of-set j (x ∷ table) (suc i) e h = omega (arith, active_of-set j table i e (omega arith))

-- Some slot holds no active connection: it is free, or its address has none.
pub record HasIdle (table : Table) : Type 0 where
  pub slot : ℕ
  pub bound : slot < length table
  pub idle : (entry_at table slot).active_connections ≡ 0

-- A slot is given to another address: no count changes if it was idle.
active_of-reuse :
    (j : Bytes) (table : Table) (i : ℕ) (ip : Bytes) (clock : ℕ)
    → i < length table
    → (entry_at table i).active_connections ≡ 0
    → active_of j (set table i (fresh ip clock)) ≡ active_of j table
active_of-reuse j table i ip clock h idle =
    ground (arith, active_of-set j table i (fresh ip clock) h)

active_of-get_entry :
    (limits : Limits) (j ip : Bytes) (clock : ℕ) (table : Table)
    → HasIdle table
    → IsTable limits table
    → active_of j (get_entry ip clock table).1 ≡ active_of j table
unfolding get_entry
active_of-get_entry limits j ip clock table idle t = elim (Option-cases (find_entry ip table 0)) [
  | inr (i, found) ↦ rw (found, get_entry)
  | inl missing ↦ elim (Option-cases (find_empty table 0)) [
    | inr (i, spare) ↦
        let (n, at, bound, empty) = find_empty_found table 0 i spare in
        let e : i ≡ n = omega arith in
        rw (missing, get_entry)
          (rw (spare, get_entry)
            (active_of-reuse j table i ip clock (omega arith)
              ((All-entry_at (Sound limits) table i (omega arith) t.sound).0 (rw e empty))))
    | inl full ↦
        rw (missing, get_entry)
          (rw (full, get_entry)
            (active_of-reuse j table (victim table) ip clock
              (victim_bound table (omega (arith, idle.bound)))
              (victim_idle table idle.slot idle.bound idle.idle).0))
  ]
]

-- What a check and a release do to the count of the entry itself.
check_entry_active :
    (limits : Limits) (now : ℕ) (e : IpRateLimit)
    → (check_entry limits now e).0.active_connections
      ≡ e.active_connections + (if (check_entry limits now e).1 then 1 else 0)
unfolding check_entry
check_entry_active limits now e = ground arith

release_entry_active :
    (e : IpRateLimit) → (release_entry e).active_connections ≡ e.active_connections - 1
unfolding release_entry
release_entry_active e = ground arith

-- While some slot is idle, a check of address `ip` changes the counts by one for `ip` if it lets the
-- connection in, and by nothing for any other address or if it refuses.
pub check_ip-active :
    (limits : Limits) (now clock : ℕ) (j ip : Bytes) (table : Table)
    → ip ≢ []
    → length ip < ip_size
    → IsTable limits table
    → HasIdle table
    → active_of j (check_ip limits now clock ip table).0
      ≡ active_of j table + (if equal ip j && (check_ip limits now clock ip table).1 then 1 else 0)
unfolding check_ip
check_ip-active limits now clock j ip table named short t idle =
    let r = get_entry-Tracked ip clock table short (omega (arith, t.size)) in
    let i = (get_entry ip clock table).0 in
    let table' = (get_entry ip clock table).1 in
    ground (
      arith,
      active_of-get_entry limits j ip clock table idle t,
      active_of-set j table' i (check_entry limits now (entry_at table' i)).0 r.bound,
      check_entry-ip limits now (entry_at table' i),
      check_entry_active limits now (entry_at table' i),
      r.named,
    )

-- A release of an address that has its slot takes one off its count.
release_ip-Tracked :
    (clock : ℕ) (j ip : Bytes) (table : Table) (i : ℕ)
    → ip ≢ []
    → Tracked ip table i
    → 1 ≤ (entry_at table i).active_connections
    → active_of j (release_ip clock ip table) + (if equal ip j then 1 else 0) ≡ active_of j table
unfolding release_ip
release_ip-Tracked clock j ip table i named r busy = elim (Bool-cases (equal ip [])) [
  | inl empty ↦ absurd (named (equal→eq ip [] empty))
  | inr address ↦
      rw (address, get_entry-Tracked' ip clock table i r)
        (ground (
          arith,
          active_of-set j table i (release_entry (entry_at table i)) r.bound,
          release_entry-ip (entry_at table i),
          release_entry_active (entry_at table i),
          r.named,
        ))
]

-- What a check that lets a connection in leaves: the slot of the address, with a connection.
check_ip-Tracked :
    (limits : Limits) (now clock : ℕ) (ip : Bytes) (table : Table)
    → length ip < ip_size
    → 1 ≤ length table
    → (check_ip limits now clock ip table).1 ≡ true
    → (i : ℕ) × Tracked ip (check_ip limits now clock ip table).0 i
      × (1 ≤ (entry_at (check_ip limits now clock ip table).0 i).active_connections)
unfolding check_ip
check_ip-Tracked limits now clock ip table short some_slot accepted =
    let r = get_entry-Tracked ip clock table short some_slot in
    let i = (get_entry ip clock table).0 in
    let table' = (get_entry ip clock table).1 in
    let e = (check_entry limits now (entry_at table' i)).0 in
    (
      i,
      Tracked-set ip table' i e r (check_entry-ip limits now (entry_at table' i) ∙ r.named),
      rw (entry_at-set table' i e r.bound)
          (ground (arith, check_entry_active limits now (entry_at table' i))),
    )

-- Where some slot of the table has no active connection, so that no address in use has to give up
-- its slot, a connection that was let in and is released leaves the count of every address as it was
-- before.
pub release_ip-check_ip :
    (limits : Limits) (now clock clock' : ℕ) (j ip : Bytes) (table : Table)
    → ip ≢ []
    → length ip < ip_size
    → IsTable limits table
    → HasIdle table
    → (check_ip limits now clock ip table).1 ≡ true
    → active_of j (release_ip clock' ip (check_ip limits now clock ip table).0) ≡ active_of j table
release_ip-check_ip limits now clock clock' j ip table named short t idle accepted =
    let (i, r, busy) =
      check_ip-Tracked limits now clock ip table short (omega (arith, t.size)) accepted in
    ground (
      arith,
      accepted,
      check_ip-active limits now clock j ip table named short t idle,
      release_ip-Tracked clock' j ip (check_ip limits now clock ip table).0 i named r busy,
    )
