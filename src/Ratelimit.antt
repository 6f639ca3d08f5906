-- ===== src/Ratelimit.antt =====
-- src/ratelimit.c: the table of client addresses behind `g_rate_limit_lock`, and the counter of all
-- connections behind `g_conn_count_lock`. Each function runs under its lock, so a call is one step.
-- `time_t` is a number of seconds from the epoch; where the source subtracts two of them and
-- compares with 60, a negative difference fails the test, as the truncated one does. The counters
-- are mathematical numbers: the source's `int` fields would have to count 2 ^ 31 events to differ.
-- `time(NULL)` is read by the caller, `now`, and once more inside `get_rate_limit_entry`, `clock`.
pub mod Victim
pub mod Find
mod Tests
pub mod Inv
pub mod Active
pub mod Trace
pub mod Total
use tnt.Base.{
  ℕ, zero, suc, ◌+◌, ◌-◌, ◌≤◌, ◌<◌, Bool, true, false, not, ◌&&◌, List, [], ◌∷◌, Option, none, some,
  ltb, leb, ◌==◌, if◌then◌else◌, replicate, get_or, set, take, Bytes, equal,
}

abbrev pub max_tracked_ips : ℕ
max_tracked_ips = 256

abbrev pub rate_limit_window : ℕ
rate_limit_window = 60

abbrev pub max_auth_failures : ℕ
max_auth_failures = 5

abbrev pub block_duration : ℕ
block_duration = 300

-- INET6_ADDRSTRLEN
abbrev pub ip_size : ℕ
ip_size = 46

-- `ip_rate_limit_t`
pub record IpRateLimit : Type 0 where
  pub ip : Bytes
  pub window_start : ℕ
  pub recent_connection_count : ℕ
  pub active_connections : ℕ
  pub auth_failure_count : ℕ
  pub is_blocked : Bool
  pub block_until : ℕ

-- What `ratelimit_init` reads from the environment.
pub record Limits : Type 0 where
  pub max_connections : ℕ
  pub max_conn_per_ip : ℕ
  pub max_conn_rate_per_ip : ℕ
  pub rate_limit_enabled : Bool

abbrev pub Table : Type 0
Table = List IpRateLimit

-- A slot that is used for an address from now on; `strncpy` copies at most 45 bytes.
abbrev pub fresh : Bytes → ℕ → IpRateLimit
fresh ip clock = record {
  ip = take (ip_size - 1) ip;
  window_start = clock;
  recent_connection_count = 0;
  active_connections = 0;
  auth_failure_count = 0;
  is_blocked = false;
  block_until = 0;
}

-- The static array starts as zero bytes.
abbrev pub unused : IpRateLimit
unused = fresh [] 0

-- `g_rate_limits` as the program starts
pub initial : Table
initial = replicate max_tracked_ips unused

abbrev pub entry_at : Table → ℕ → IpRateLimit
entry_at table i = get_or table i unused

-- The first loop of `get_rate_limit_entry`, from index `i` on.
pub find_entry : Bytes → Table → ℕ → Option ℕ
find_entry ip [] i = none
find_entry ip (e ∷ es) i = if equal e.ip ip then some i else find_entry ip es (i + 1)

-- The second loop: `ip[0] == '\0'`.
pub find_empty : Table → ℕ → Option ℕ
find_empty [] i = none
find_empty (e ∷ es) i = if equal e.ip [] then some i else find_empty es (i + 1)

-- A round of the third loop on the entry at index `i`; `none` is `oldest_idx < 0`.
pub older : IpRateLimit → ℕ → Option (ℕ × ℕ) → Option (ℕ × ℕ)
older e i best = if not (e.active_connections == 0) then best else elim best [
  | none ↦ some (i, e.window_start)
  | some (k, time) ↦ if ltb e.window_start time then some (i, e.window_start) else some (k, time)
]

pub oldest_inactive : Table → ℕ → Option (ℕ × ℕ) → Option (ℕ × ℕ)
oldest_inactive [] i best = best
oldest_inactive (e ∷ es) i best = oldest_inactive es (i + 1) (older e i best)

-- The last loop, over the entries from index `i` on.
pub oldest_any : Table → ℕ → ℕ × ℕ → ℕ
oldest_any [] i (k, time) = k
oldest_any (e ∷ es) i (k, time) =
    oldest_any es (i + 1) (if ltb e.window_start time then (i, e.window_start) else (k, time))

-- The slot to reuse. The table is an array of 256, so it is not empty.
pub victim : Table → ℕ
victim [] = 0
victim (e ∷ es) = elim (oldest_inactive (e ∷ es) 0 none) [
  | some (k, time) ↦ k
  | none ↦ oldest_any es 1 (0, e.window_start)
]

-- `get_rate_limit_entry`: the index that the pointer stands for, and the table.
pub get_entry : Bytes → ℕ → Table → ℕ × Table
get_entry ip clock table = elim (find_entry ip table 0) [
  | some i ↦ (i, table)
  | none ↦ elim (find_empty table 0) [
    | some i ↦ (i, set table i (fresh ip clock))
    | none ↦ (victim table, set table (victim table) (fresh ip clock))
  ]
]

-- The reset behind the third test of `ratelimit_check_ip`, for a block that has ended.
abbrev pub unblock : ℕ → IpRateLimit → IpRateLimit
unblock now e =
    if e.is_blocked && leb e.block_until now
    then record e { is_blocked = false; auth_failure_count = 0 }
    else e

-- The start of a new window, and the count of this connection.
abbrev pub count_connection : ℕ → IpRateLimit → IpRateLimit
count_connection now e =
    if leb rate_limit_window (now - e.window_start)
    then record e { window_start = now; recent_connection_count = 1 }
    else record e { recent_connection_count = e.recent_connection_count + 1 }

-- `entry->active_connections++`
abbrev pub accept : IpRateLimit → IpRateLimit × Bool
accept e = (record e { active_connections = e.active_connections + 1 }, true)

-- The tests of `ratelimit_check_ip` on the entry, with the entry as they leave it.
pub check_entry : Limits → ℕ → IpRateLimit → IpRateLimit × Bool
check_entry limits now e =
    if leb limits.max_conn_per_ip e.active_connections
    then (e, false)
    else if not limits.rate_limit_enabled
    then accept e
    else if e.is_blocked && ltb now e.block_until
    then (e, false)
    else let counted = count_connection now (unblock now e) in
      if ltb limits.max_conn_rate_per_ip counted.recent_connection_count
      then (record counted { is_blocked = true; block_until = now + block_duration }, false)
      else accept counted

-- `ratelimit_check_ip`
pub check_ip : Limits → ℕ → ℕ → Bytes → Table → Table × Bool
check_ip limits now clock ip table =
    let (i, table') = get_entry ip clock table in
    let (e, accepted) = check_entry limits now (entry_at table' i) in (set table' i e, accepted)

pub fail_entry : ℕ → IpRateLimit → IpRateLimit
fail_entry now e =
    let counted = record e { auth_failure_count = e.auth_failure_count + 1 } in
    if leb max_auth_failures counted.auth_failure_count
    then record counted { is_blocked = true; block_until = now + block_duration }
    else counted

-- `ratelimit_record_auth_failure`
pub record_auth_failure : Limits → ℕ → ℕ → Bytes → Table → Table
record_auth_failure limits now clock ip table =
    if not limits.rate_limit_enabled
    then table
    else let (i, table') = get_entry ip clock table in
      set table' i (fail_entry now (entry_at table' i))

pub release_entry : IpRateLimit → IpRateLimit
release_entry e =
    if ltb 0 e.active_connections
    then record e { active_connections = e.active_connections - 1 }
    else e

-- `ratelimit_release_ip`; a null pointer is the empty address here.
pub release_ip : ℕ → Bytes → Table → Table
release_ip clock ip table =
    if equal ip []
    then table
    else let (i, table') = get_entry ip clock table in
      set table' i (release_entry (entry_at table' i))

-- `ratelimit_check_and_increment_total` and `ratelimit_decrement_total` on `g_total_connections`
pub check_and_increment_total : Limits → ℕ → ℕ × Bool
check_and_increment_total limits total =
    if leb limits.max_connections total then (total, false) else (total + 1, true)

pub decrement_total : ℕ → ℕ
decrement_total total = if ltb 0 total then total - 1 else total
