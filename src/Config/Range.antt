-- ===== src/Config/Range.antt =====
-- A setting is always in its range.
use tnt.Base.{Option, some, Bytes, ◌≡◌, arith, Option-cases, inl, inr}
use tnt.Base.Int.{ℤ, ◌≤ℤ◌}
use tnt.Config.{IntConfigSpec, refuses, env_int, config_env_int, config_parse_int}

abbrev pub InRange : IntConfigSpec → ℤ → Type 0
InRange spec n = (spec.min_value ≤ℤ n) × (n ≤ℤ spec.max_value)

-- Whatever the environment holds and whatever number is read from it, a setting whose fallback is
-- in its range is in its range, and so is every number that is parsed for it.
pub config-InRange :
    (strtol : Bytes → ℤ × Bytes) (getenv : Bytes → Option Bytes) (value : Bytes) (n : ℤ)
    (spec : IntConfigSpec)
    → InRange spec spec.fallback
    → config_parse_int strtol value spec ≡ some n
    → InRange spec (config_env_int strtol getenv spec) × InRange spec n
unfolding config_env_int config_parse_int env_int refuses
config-InRange strtol getenv value n spec h p = elim (Option-cases (getenv spec.env_name)) [
  | inl unset ↦ ground (arith, h)
  | inr (env, set) ↦ ground (arith, h)
]
