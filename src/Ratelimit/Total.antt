-- ===== src/Ratelimit/Total.antt =====
-- The counter of all connections, over the calls of src/ratelimit.c that change it.
use tnt.Base.{ℕ, ◌+◌, ◌≤◌, true, List, [], ◌∷◌, ◌≡◌, ◌<◌, ◌↔◌, if◌then◌else◌, arith}
use tnt.Ratelimit.{Limits, check_and_increment_total, decrement_total}

-- The main loop takes a connection, or one that was let in ends.
pub data Call : Type 0 where
  incoming : Call
  ended : Call

step : Limits → Call → ℕ → ℕ
step limits incoming total = (check_and_increment_total limits total).0
step limits ended total = decrement_total total

pub run_total : Limits → List Call → ℕ → ℕ
unfolding step
run_total limits [] total = total
run_total limits (c ∷ cs) total = run_total limits cs (step limits c total)

step-le :
    (limits : Limits) (c : Call) (total : ℕ)
    → total ≤ limits.max_connections
    → step limits c total ≤ limits.max_connections
unfolding step check_and_increment_total decrement_total
step-le limits incoming total h = ground arith
step-le limits ended total h = ground arith

-- Whatever the order of calls, the counter stays within the configured number of connections.
pub run_total-le :
    (limits : Limits) (cs : List Call) (total : ℕ)
    → total ≤ limits.max_connections
    → run_total limits cs total ≤ limits.max_connections
unfolding run_total
run_total-le limits [] total h = h
run_total-le limits (c ∷ cs) total h =
    run_total-le limits cs (step limits c total) (step-le limits c total h)

-- An increment is granted exactly while there is room, it then counts one more, and the decrement
-- that pairs with it gives the old count back; a refused one changes nothing.
pub increment-decrement :
    (limits : Limits) (total : ℕ)
    → let (total', granted) = check_and_increment_total limits total in
      ((granted ≡ true) ↔ (total < limits.max_connections))
      × (total' ≡ total + (if granted then 1 else 0))
      × ((if granted then decrement_total total' else total') ≡ total)
unfolding check_and_increment_total decrement_total
increment-decrement limits total = ((ground arith), ground arith, ground arith)
