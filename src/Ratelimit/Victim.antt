-- ===== src/Ratelimit/Victim.antt =====
-- The slot that is reused when the table is full.
use mathlib.Core.Path.{subst}
use tnt.Base.{
  ℕ, zero, suc, ◌+◌, ◌≤◌, ◌<◌, [], ◌∷◌, Option, none, some, ltb, ◌==◌, length, ◌≡◌, arith, ◌⊎◌, inl,
  inr, Bool-cases, Option-cases,
}
use tnt.Ratelimit.{IpRateLimit, Table, entry_at, older, oldest_inactive, oldest_any, victim}

-- The outcome of the search for the oldest idle entry: its index and the start of its window.
abbrev Picks : Table → ℕ → Option (ℕ × ℕ) → ℕ × ℕ → Type 0
Picks es i best (k, time) =
    (best ≡ some (k, time))
    ⊎ ((n : ℕ) × (k ≡ i + n)
        × (n < length es)
        × ((entry_at es n).active_connections ≡ 0)
        × ((entry_at es n).window_start ≡ time))

older-Picks :
    (e : IpRateLimit) (es : Table) (i : ℕ) (best : Option (ℕ × ℕ)) (k time : ℕ)
    → older e i best ≡ some (k, time)
    → Picks (e ∷ es) i best (k, time)
unfolding older
older-Picks e es i none k time h = inr (0, ground arith, omega arith, ground arith, ground arith)
older-Picks e es i (some (j, t)) k time h = elim (Bool-cases (e.active_connections == 0)) [
  | inr busy ↦ inl (ground arith)
  | inl idle ↦ elim (Bool-cases (ltb e.window_start t)) [
    | inl less ↦ inr (0, ground arith, omega arith, ground arith, ground arith)
    | inr more ↦ inl (ground arith)
  ]
]

oldest_inactive-Picks :
    (es : Table) (i : ℕ) (best : Option (ℕ × ℕ)) (k time : ℕ)
    → oldest_inactive es i best ≡ some (k, time)
    → Picks es i best (k, time)
unfolding oldest_inactive
oldest_inactive-Picks [] i best k time h = inl h
oldest_inactive-Picks (e ∷ es) i best k time h =
    elim (oldest_inactive-Picks es (i + 1) (older e i best) k time h) [
      | inr (n, at, bound, idle, start) ↦ inr (suc n, omega arith, omega arith, idle, start)
      | inl taken ↦ older-Picks e es i best k time taken
    ]

-- The search has found an entry, and one at least as old as `start`.
abbrev AtMost : Option (ℕ × ℕ) → ℕ → Type 0
AtMost none start = ⊥
AtMost (some (k, time)) start = time ≤ start

older-AtMost :
    (e : IpRateLimit) (i : ℕ) (best : Option (ℕ × ℕ)) (start : ℕ)
    → AtMost best start
    → AtMost (older e i best) start
unfolding older
older-AtMost e i none start h = absurd h
older-AtMost e i (some (k, time)) start h = elim (Bool-cases (e.active_connections == 0)) [
  | inr busy ↦ rw busy h
  | inl idle ↦ elim (Bool-cases (ltb e.window_start time)) [
    | inl less ↦ rw (idle, less) (ground arith)
    | inr more ↦ rw (idle, more) h
  ]
]

older_idle-AtMost :
    (e : IpRateLimit) (i : ℕ) (best : Option (ℕ × ℕ))
    → e.active_connections ≡ 0
    → AtMost (older e i best) e.window_start
unfolding older
older_idle-AtMost e i none idle = rw idle (omega arith)
older_idle-AtMost e i (some (k, time)) idle = elim (Bool-cases (ltb e.window_start time)) [
  | inl less ↦ rw (idle, less) (omega arith)
  | inr more ↦ rw (idle, more) (ground arith)
]

oldest_inactive-AtMost :
    (es : Table) (i : ℕ) (best : Option (ℕ × ℕ)) (start : ℕ)
    → AtMost best start
    → AtMost (oldest_inactive es i best) start
unfolding oldest_inactive
oldest_inactive-AtMost [] i best start h = h
oldest_inactive-AtMost (e ∷ es) i best start h =
    oldest_inactive-AtMost es (i + 1) (older e i best) start (older-AtMost e i best start h)

oldest_inactive_idle :
    (es : Table) (i : ℕ) (best : Option (ℕ × ℕ)) (n : ℕ)
    → n < length es
    → (entry_at es n).active_connections ≡ 0
    → AtMost (oldest_inactive es i best) (entry_at es n).window_start
unfolding oldest_inactive
oldest_inactive_idle [] i best n h idle = absurd (omega arith)
oldest_inactive_idle (e ∷ es) i best zero h idle =
    oldest_inactive-AtMost es (i + 1) (older e i best) e.window_start
      (older_idle-AtMost e i best idle)
oldest_inactive_idle (e ∷ es) i best (suc n) h idle =
    oldest_inactive_idle es (i + 1) (older e i best) n (omega arith) idle

oldest_any_bound :
    (es : Table) (i : ℕ) (best : ℕ × ℕ) → best.0 < i → oldest_any es i best < i + length es
unfolding oldest_any
oldest_any_bound [] i (k, time) h = omega arith
oldest_any_bound (e ∷ es) i (k, time) h = elim (Bool-cases (ltb e.window_start time)) [
  | inl less ↦
      rw less (omega (arith, oldest_any_bound es (i + 1) (i, e.window_start) (omega arith)))
  | inr more ↦ rw more (omega (arith, oldest_any_bound es (i + 1) (k, time) (omega arith)))
]

pub victim_bound : (table : Table) → 1 ≤ length table → victim table < length table
unfolding victim
victim_bound [] h = absurd (omega arith)
victim_bound (e ∷ es) h = elim (Option-cases (oldest_inactive (e ∷ es) 0 none)) [
  | inl busy ↦
      rw (busy, victim) (omega (arith, oldest_any_bound es 1 (0, e.window_start) (omega arith)))
  | inr ((k, time), found) ↦ elim (oldest_inactive-Picks (e ∷ es) 0 none k time found) [
    | inl nothing ↦ cc
    | inr (n, at, bound, idle, start) ↦ rw (found, victim) (omega arith)
  ]
]

-- While some entry has no active connection, the entry that is reused has none, and of all those
-- its window is the oldest.
pub victim_idle :
    (table : Table) (n : ℕ)
    → n < length table
    → (entry_at table n).active_connections ≡ 0
    → ((entry_at table (victim table)).active_connections ≡ 0)
      × ((entry_at table (victim table)).window_start ≤ (entry_at table n).window_start)
unfolding victim
victim_idle [] n h idle = absurd (omega arith)
victim_idle (e ∷ es) n h idle = elim (Option-cases (oldest_inactive (e ∷ es) 0 none)) [
  | inl busy ↦ absurd (
      subst (λ o. AtMost o (entry_at (e ∷ es) n).window_start) busy
        (oldest_inactive_idle (e ∷ es) 0 none n h idle))
  | inr ((k, time), found) ↦ elim (oldest_inactive-Picks (e ∷ es) 0 none k time found) [
    | inl nothing ↦ cc
    | inr (m, at, bound, idle', start) ↦
        let same : k ≡ m = omega arith in
        rw (found, victim)
          (rw same (
            idle',
            rw start (
                subst (λ o. AtMost o (entry_at (e ∷ es) n).window_start) found
                  (oldest_inactive_idle (e ∷ es) 0 none n h idle)),
          ))
  ]
]
