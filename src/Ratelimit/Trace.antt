-- ===== src/Ratelimit/Trace.antt =====
-- Sequences of calls for one address: the table gives the answers of a single entry, and the
-- limits hold along every sequence.
pub mod Window
use mathlib.Core.Path.{subst}
use tnt.Base.{
  ℕ, zero, suc, ◌+◌, ◌-◌, ◌≤◌, ◌<◌, Bool, true, false, not, ◌&&◌, List, [], ◌∷◌, Option, none, some,
  ltb, leb, ◌==◌, if◌then◌else◌, length, get_or, set, take, Bytes, equal, ◌≡◌, ◌≢◌, refl, sym, ap,
  ◌∙◌, arith, ◌⊎◌, inl, inr, Bool-cases, Option-cases, equal→eq, equal_refl, length-set, take-all,
  All,
}
use tnt.Ratelimit.{
  IpRateLimit, Limits, Table, ip_size, fresh, unused, entry_at, get_entry, check_entry, check_ip,
  release_entry, release_ip, fail_entry, record_auth_failure, rate_limit_window, count_connection,
  block_duration, max_auth_failures,
}
use tnt.Ratelimit.Inv.{check_entry-ip, release_entry-ip, fail_entry-ip}
use tnt.Ratelimit.Find.{Tracked, get_entry-Tracked', Tracked-set, entry_at-set}

-- A call for the address: its two readings of the clock, where it reads them.
pub data Event : Type 0 where
  connect : ℕ → ℕ → Event
  auth_failure : ℕ → ℕ → Event
  disconnect : ℕ → Event

-- The answers to the connects, from one entry.
unfoldable pub run_entry : Limits → List Event → IpRateLimit → List Bool
run_entry limits [] e = []
run_entry limits (connect now clock ∷ events) e =
    let (e', accepted) = check_entry limits now e in accepted ∷ run_entry limits events e'
run_entry limits (auth_failure now clock ∷ events) e =
    run_entry limits events (if not limits.rate_limit_enabled then e else fail_entry now e)
run_entry limits (disconnect clock ∷ events) e = run_entry limits events (release_entry e)

-- The answers to the connects of address `ip`, from the table.
unfoldable pub run_table : Limits → Bytes → List Event → Table → List Bool
run_table limits ip [] table = []
run_table limits ip (connect now clock ∷ events) table =
    let (table', accepted) = check_ip limits now clock ip table in
    accepted ∷ run_table limits ip events table'
run_table limits ip (auth_failure now clock ∷ events) table =
    run_table limits ip events (record_auth_failure limits now clock ip table)
run_table limits ip (disconnect clock ∷ events) table =
    run_table limits ip events (release_ip clock ip table)

-- Each operation at an address that has its slot changes the entry there.
module _ (limits : Limits) (now clock : ℕ) (ip : Bytes) (table : Table) (i : ℕ)
    (t : Tracked ip table i) where
  check_ip_tracked : check_ip limits now clock ip table ≡ (
    set table i (check_entry limits now (entry_at table i)).0,
    (check_entry limits now (entry_at table i)).1,
  )
  unfolding check_ip
  check_ip_tracked = rw (get_entry-Tracked' ip clock table i t)

  fail_tracked :
      limits.rate_limit_enabled ≡ true
      → record_auth_failure limits now clock ip table
        ≡ set table i (fail_entry now (entry_at table i))
  unfolding record_auth_failure
  fail_tracked on = simp (on, get_entry-Tracked' ip clock table i t)

  fail_disabled :
      limits.rate_limit_enabled ≡ false → record_auth_failure limits now clock ip table ≡ table
  unfolding record_auth_failure
  fail_disabled off = simp off

  release_tracked :
      ip ≢ [] → release_ip clock ip table ≡ set table i (release_entry (entry_at table i))
  unfolding release_ip
  release_tracked named = elim (Bool-cases (equal ip [])) [
    | inl empty ↦ absurd (named (equal→eq ip [] empty))
    | inr address ↦ rw (address, get_entry-Tracked' ip clock table i t)
  ]

-- For an address that has its slot, any sequence of checks, failures and releases of that address is
-- answered as by its entry alone.
pub run_table-run_entry :
    (limits : Limits) (ip : Bytes) (events : List Event) (table : Table) (i : ℕ)
    → ip ≢ []
    → Tracked ip table i
    → run_table limits ip events table ≡ run_entry limits events (entry_at table i)
unfolding run_table run_entry
run_table-run_entry limits ip [] table i named t = refl
run_table-run_entry limits ip (connect now clock ∷ events) table i named t =
    let e = entry_at table i in
    let e' = (check_entry limits now e).0 in
    let kept = Tracked-set ip table i e' t (check_entry-ip limits now e ∙ t.named) in
    rw (check_ip_tracked limits now clock ip table i t) (
      ap (◌∷◌ (check_entry limits now e).1) (
        run_table-run_entry limits ip events (set table i e') i named kept
        ∙ ap (run_entry limits events) (entry_at-set table i e' t.bound)))
run_table-run_entry limits ip (auth_failure now clock ∷ events) table i named t =
    elim (Bool-cases limits.rate_limit_enabled) [
      | inr off ↦
          simp (fail_disabled limits now clock ip table i t off, off)
            (run_table-run_entry limits ip events table i named t)
      | inl on ↦
          let e' = fail_entry now (entry_at table i) in
          let kept = Tracked-set ip table i e' t (fail_entry-ip now (entry_at table i) ∙ t.named) in
          simp (fail_tracked limits now clock ip table i t on, on)
            (run_table-run_entry limits ip events (set table i e') i named kept
              ∙ ap (run_entry limits events) (entry_at-set table i e' t.bound))
    ]
run_table-run_entry limits ip (disconnect clock ∷ events) table i named t =
    let e' = release_entry (entry_at table i) in
    let kept = Tracked-set ip table i e' t (release_entry-ip (entry_at table i) ∙ t.named) in
    rw (release_tracked limits 0 clock ip table i t named) (
      run_table-run_entry limits ip events (set table i e') i named kept
      ∙ ap (run_entry limits events) (entry_at-set table i e' t.bound))
