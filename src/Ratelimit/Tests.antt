-- ===== src/Ratelimit/Tests.antt =====
-- The limits at concrete tables.
use tnt.Base.{◌-◌, ◌≤◌, true, false, List, [], ◌∷◌, ◌≡◌, ◌≢◌, refl, arith, codes, Bytes, equal}
use tnt.Ratelimit.{
  IpRateLimit, Limits, Table, initial, fresh, find_entry, find_empty, older, oldest_inactive,
  victim, get_entry, check_entry, check_ip, fail_entry, record_auth_failure, release_entry,
  release_ip,
}
use tnt.Ratelimit.Find.{Tracked}
use tnt.Ratelimit.Inv.{IsTable, operations-IsTable, initial-IsTable}
use tnt.Ratelimit.Active.{active_of, HasIdle, release_ip-check_ip}
use tnt.Ratelimit.Trace.{Event, connect, disconnect, run_entry, run_table, run_table-run_entry}
use tnt.Ratelimit.Trace.Window.{
  accepted, failures, accepted-WithinWindow, failures-block, check_entry_failures,
}
use tnt.Ratelimit.Total.{incoming, ended, run_total, run_total-le}

abbrev limits : Limits
limits = record {
  max_connections = 2;
  max_conn_per_ip = 5;
  max_conn_rate_per_ip = 2;
  rate_limit_enabled = true;
}

abbrev home : Bytes
home = codes "10.0.0.7"

abbrev other : Bytes
other = codes "::1"

abbrev home_entry : IpRateLimit
home_entry = record (fresh home 1000) { active_connections = 1; recent_connection_count = 1 }

-- Two slots in use, the second of them idle.
abbrev table : Table
table = home_entry ∷ fresh other 900 ∷ []

abbrev visits : List Event
visits = connect 1001 1001 ∷ connect 1002 1002 ∷ disconnect 1003 ∷ connect 1004 1004 ∷ []

table_runs :
    (run_table limits home visits table ≡ true ∷ false ∷ false ∷ [])
    × ((get_entry (codes "192.0.2.1") 1010 table).0 ≡ 1)
    × (run_entry limits
          (failures (1 ∷ 2 ∷ 3 ∷ 4 ∷ 5 ∷ []) (connect 304 304 ∷ connect 305 305 ∷ []))
          (fresh home 0)
        ≡ false ∷ true ∷ [])
unfolding run_table run_entry check_ip release_ip record_auth_failure get_entry find_entry
    find_empty victim older oldest_inactive check_entry release_entry fail_entry equal
table_runs = (refl, refl, refl)

home-Tracked : Tracked home table 0
unfolding find_entry equal
home-Tracked = record { found = refl; bound = omega arith; named = refl }

home_named : home ≢ []
home_named = cc

operations-IsTable_example :
    IsTable limits (check_ip limits 5 5 home initial).0
    × IsTable limits (record_auth_failure limits 5 5 home initial)
    × IsTable limits (release_ip 5 home initial)
operations-IsTable_example =
    operations-IsTable limits 5 5 home initial home_named (omega arith) (initial-IsTable limits)

initial-HasIdle : HasIdle initial
unfolding initial
initial-HasIdle = record { slot = 0; bound = omega arith; idle = refl }

let_in : (check_ip limits 5 5 home initial).1 ≡ true
unfolding check_ip get_entry find_entry find_empty check_entry equal initial
let_in = refl

release_ip-check_ip_example :
    active_of other (release_ip 9 home (check_ip limits 5 5 home initial).0)
    ≡ active_of other initial
release_ip-check_ip_example =
    release_ip-check_ip limits 5 5 9 other home initial home_named (omega arith)
      (initial-IsTable limits) initial-HasIdle let_in

run_table-run_entry_example :
    run_table limits home visits table ≡ run_entry limits visits home_entry
run_table-run_entry_example = run_table-run_entry limits home visits table 0 home_named home-Tracked

accepted-WithinWindow_example : accepted (run_entry limits visits home_entry) ≤ 2 - 1
accepted-WithinWindow_example = accepted-WithinWindow limits visits home_entry refl (omega arith)

failures-block_example :
    accepted (
      run_entry limits
        (failures (1 ∷ 2 ∷ 3 ∷ 4 ∷ 5 ∷ []) (connect 300 300 ∷ disconnect 300 ∷ []))
        (fresh home 0))
    ≡ 0
failures-block_example =
    failures-block limits 1 (1 ∷ 2 ∷ 3 ∷ 4 ∷ 5 ∷ []) (connect 300 300 ∷ disconnect 300 ∷ [])
      (fresh home 0) refl (omega arith) (omega arith) (omega arith) (omega arith)

check_entry_failures_example :
    (check_entry limits 9000 (record home_entry { auth_failure_count = 4 })).0.auth_failure_count
    ≡ 4
check_entry_failures_example =
    check_entry_failures limits 9000 (record home_entry { auth_failure_count = 4 }) refl

run_total-le_example :
    run_total limits (incoming ∷ incoming ∷ incoming ∷ ended ∷ incoming ∷ []) 0 ≤ 2
run_total-le_example =
    run_total-le limits (incoming ∷ incoming ∷ incoming ∷ ended ∷ incoming ∷ []) 0 (omega arith)
