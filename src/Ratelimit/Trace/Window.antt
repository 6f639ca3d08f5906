-- ===== src/Ratelimit/Trace/Window.antt =====
-- What the limits promise along every sequence of calls for one address.
use mathlib.Core.Path.{subst}
use tnt.Base.{
  ℕ, ◌+◌, ◌-◌, ◌≤◌, ◌<◌, Bool, true, false, List, [], ◌∷◌, if◌then◌else◌, length, ◌≡◌, refl, sym,
  arith, All,
}
use tnt.Ratelimit.{
  IpRateLimit, Limits, check_entry, release_entry, fail_entry, rate_limit_window, block_duration,
  max_auth_failures,
}
use tnt.Ratelimit.Trace.{Event, connect, auth_failure, disconnect, run_entry}

-- How many connects were let in.
abbrev pub accepted : List Bool → ℕ
accepted [] = 0
accepted (answer ∷ answers) = (if answer then 1 else 0) + accepted answers

-- Every connect comes before the window that starts at `start` has passed.
abbrev pub WithinWindow : ℕ → List Event → Type 0
WithinWindow start [] = Unit
WithinWindow start (connect now clock ∷ events) =
    (now - start < rate_limit_window) × WithinWindow start events
WithinWindow start (e ∷ events) = WithinWindow start events

check_entry_window :
    (limits : Limits) (now : ℕ) (e : IpRateLimit)
    → limits.rate_limit_enabled ≡ true
    → now - e.window_start < rate_limit_window
    → let (e', answer) = check_entry limits now e in
      (e'.window_start ≡ e.window_start)
      × (e.recent_connection_count ≤ e'.recent_connection_count)
      × (answer ≡ true
          → (e'.recent_connection_count ≡ e.recent_connection_count + 1)
            × (e'.recent_connection_count ≤ limits.max_conn_rate_per_ip))
unfolding check_entry
check_entry_window limits now e on within = (ground arith, ground arith, λ let_in. ground arith)

keeps_window :
    (now : ℕ) (e : IpRateLimit)
    → ((fail_entry now e).window_start ≡ e.window_start)
      × ((fail_entry now e).recent_connection_count ≡ e.recent_connection_count)
      × ((release_entry e).window_start ≡ e.window_start)
      × ((release_entry e).recent_connection_count ≡ e.recent_connection_count)
unfolding fail_entry release_entry
keeps_window now e = (ground arith, ground arith, ground arith, ground arith)

-- With rate limiting on, within a window of 60 seconds an entry lets in at most as many connections
-- as the rate allows less those it has counted already, whatever failures and releases come between.
pub accepted-WithinWindow :
    (limits : Limits) (events : List Event) (e : IpRateLimit)
    → limits.rate_limit_enabled ≡ true
    → WithinWindow e.window_start events
    → accepted (run_entry limits events e) ≤ limits.max_conn_rate_per_ip - e.recent_connection_count
unfolding run_entry
accepted-WithinWindow limits [] e on within = omega arith
accepted-WithinWindow limits (connect now clock ∷ events) e on within = ground (
  arith,
  check_entry_window limits now e on within.0,
  accepted-WithinWindow limits events (check_entry limits now e).0 on (
      subst (λ w. WithinWindow w events) (sym (check_entry_window limits now e on within.0).0)
        within.1),
)
accepted-WithinWindow limits (auth_failure now clock ∷ events) e on within = simp on (
    subst
      (λ n. accepted (run_entry limits events (fail_entry now e)) ≤ limits.max_conn_rate_per_ip - n)
      (keeps_window now e).1
      (accepted-WithinWindow limits events (fail_entry now e) on
        (subst (λ w. WithinWindow w events) (sym (keeps_window now e).0) within)))
accepted-WithinWindow limits (disconnect clock ∷ events) e on within =
    subst
      (λ n. accepted (run_entry limits events (release_entry e)) ≤ limits.max_conn_rate_per_ip - n)
      (keeps_window 0 e).3
      (accepted-WithinWindow limits events (release_entry e) on
        (subst (λ w. WithinWindow w events) (sym (keeps_window 0 e).2) within))

-- Every connect comes before `until`, and every failure at a time from which a block lasts that long.
abbrev pub Before : ℕ → List Event → Type 0
Before until [] = Unit
Before until (connect now clock ∷ events) = (now < until) × Before until events
Before until (auth_failure now clock ∷ events) =
    (until ≤ now + block_duration) × Before until events
Before until (disconnect clock ∷ events) = Before until events

abbrev BlockedUntil : ℕ → IpRateLimit → Type 0
BlockedUntil until e = (e.is_blocked ≡ true) × (until ≤ e.block_until)

check_entry_blocked :
    (limits : Limits) (now until : ℕ) (e : IpRateLimit)
    → limits.rate_limit_enabled ≡ true
    → BlockedUntil until e
    → now < until
    → check_entry limits now e ≡ (e, false)
unfolding check_entry
check_entry_blocked limits now until e on b h = ground arith

keeps_block :
    (now until : ℕ) (e : IpRateLimit)
    → BlockedUntil until e
    → until ≤ now + block_duration
    → BlockedUntil until (fail_entry now e) × BlockedUntil until (release_entry e)
unfolding fail_entry release_entry
keeps_block now until e b h = ((ground arith, ground arith), (ground arith, ground arith))

blocked_refuses :
    (limits : Limits) (until : ℕ) (events : List Event) (e : IpRateLimit)
    → limits.rate_limit_enabled ≡ true
    → BlockedUntil until e
    → Before until events
    → accepted (run_entry limits events e) ≡ 0
unfolding run_entry
blocked_refuses limits until [] e on b before = refl
blocked_refuses limits until (connect now clock ∷ events) e on b before =
    rw (check_entry_blocked limits now until e on b before.0)
      (omega (arith, blocked_refuses limits until events e on b before.1))
blocked_refuses limits until (auth_failure now clock ∷ events) e on b before = simp on (
    blocked_refuses limits until events (fail_entry now e) on (keeps_block now until e b before.0).0
      before.1)
blocked_refuses limits until (disconnect clock ∷ events) e on b before =
    blocked_refuses limits until events (release_entry e) on
      (keeps_block until until e b (omega arith)).1 before

-- Failures at the given times, with what comes after them.
abbrev pub failures : List ℕ → List Event → List Event
failures [] events = events
failures (now ∷ times) events = auth_failure now now ∷ failures times events

fail_entry_count :
    (now : ℕ) (e : IpRateLimit) → (fail_entry now e).auth_failure_count ≡ e.auth_failure_count + 1
unfolding fail_entry
fail_entry_count now e = ground arith

fail_entry_blocks :
    (now : ℕ) (e : IpRateLimit)
    → max_auth_failures ≤ e.auth_failure_count + 1
    → BlockedUntil (now + block_duration) (fail_entry now e)
unfolding fail_entry
fail_entry_blocks now e h = (ground arith, ground arith)

Before-failures :
    (start : ℕ) (times : List ℕ) (events : List Event)
    → All (λ t. start ≤ t) times
    → Before (start + block_duration) events
    → Before (start + block_duration) (failures times events)
Before-failures start [] events h b = b
Before-failures start (now ∷ times) events h b =
    (omega (arith, h.0), Before-failures start times events h.1 b)

run_entry_failure :
    (limits : Limits) (now : ℕ) (events : List Event) (e : IpRateLimit)
    → limits.rate_limit_enabled ≡ true
    → run_entry limits (auth_failure now now ∷ events) e
      ≡ run_entry limits events (fail_entry now e)
unfolding run_entry
run_entry_failure limits now events e on = simp on

-- With rate limiting on, once five authentication failures of an address have been recorded, all
-- of `times` at or after `start`, no connect before `start` plus 300 seconds is let in, whatever
-- failures and releases come between.
pub failures-block :
    (limits : Limits) (start : ℕ) (times : List ℕ) (events : List Event) (e : IpRateLimit)
    → limits.rate_limit_enabled ≡ true
    → All (λ t. start ≤ t) times
    → 1 ≤ length times
    → max_auth_failures ≤ e.auth_failure_count + length times
    → Before (start + block_duration) events
    → accepted (run_entry limits (failures times events) e) ≡ 0
failures-block limits start [] events e on h some_time many before = absurd (omega arith)
failures-block limits start (now ∷ []) events e on h some_time many before =
    let b = fail_entry_blocks now e (omega arith) in
    rw (run_entry_failure limits now events e on) (
      blocked_refuses limits (start + block_duration) events (fail_entry now e) on
        (b.0, omega (arith, b.1, h.0)) before)
failures-block limits start (now ∷ next ∷ times) events e on h some_time many before =
    rw (run_entry_failure limits now (failures (next ∷ times) events) e on) (
      failures-block limits start (next ∷ times) events (fail_entry now e) on h.1 (omega arith)
        (omega (arith, fail_entry_count now e)) before)

-- A check of an address that is not blocked leaves its count of authentication failures, also when
-- the check starts a new window.
pub check_entry_failures :
    (limits : Limits) (now : ℕ) (e : IpRateLimit)
    → e.is_blocked ≡ false
    → (check_entry limits now e).0.auth_failure_count ≡ e.auth_failure_count
unfolding check_entry
check_entry_failures limits now e open_entry = ground arith
