-- ===== src/Config.antt =====
-- src/config_defaults.c and `env_int` of src/common.c: the whole-number settings. `strtol` to base
-- 10 is a parameter, with the number and what it left unread.
pub mod Range
mod Tests
use tnt.Base.{ℕ, Bool, not, ◌||◌, Option, none, some, ◌==◌, if◌then◌else◌, length, Bytes, codes}
use tnt.Base.Int.{ℤ, pos, negsuc, ltb_ℤ}

-- `tnt_int_config_spec_t`
pub record IntConfigSpec : Type 0 where
  pub env_name : Bytes
  pub fallback : ℤ
  pub min_value : ℤ
  pub max_value : ℤ

module _ (strtol : Bytes → ℤ × Bytes) where
  -- The two tests on what `strtol` gave.
  refuses : ℤ → ℤ → ℤ × Bytes → Bool
  refuses min_val max_val (val, end) =
      not (length end == 0) || ltb_ℤ val min_val || ltb_ℤ max_val val

  -- `getenv` gives `none` for NULL.
  pub env_int : Option Bytes → ℤ → ℤ → ℤ → ℤ
  unfolding refuses
  env_int none fallback min_val max_val = fallback
  env_int (some env) fallback min_val max_val =
      if length env == 0
      then fallback
      else if refuses min_val max_val (strtol env)
      then fallback
      else (strtol env).0

  pub config_env_int : (Bytes → Option Bytes) → IntConfigSpec → ℤ
  unfolding env_int
  config_env_int getenv spec =
      env_int (getenv spec.env_name) spec.fallback spec.min_value spec.max_value

  pub config_parse_int : Bytes → IntConfigSpec → Option ℤ
  unfolding refuses
  config_parse_int value spec =
      if length value == 0
      then none
      else if refuses spec.min_value spec.max_value (strtol value)
      then none
      else some (strtol value).0

abbrev pub config_port : IntConfigSpec
config_port = record {
  env_name = codes "PORT";
  fallback = pos 2222;
  min_value = pos 1;
  max_value = pos 65535;
}

abbrev pub config_max_connections : IntConfigSpec
config_max_connections = record {
  env_name = codes "TNT_MAX_CONNECTIONS";
  fallback = pos 64;
  min_value = pos 1;
  max_value = pos 1024;
}

abbrev pub config_max_conn_per_ip : IntConfigSpec
config_max_conn_per_ip = record config_max_connections {
  env_name = codes "TNT_MAX_CONN_PER_IP";
  fallback = pos 5;
}

abbrev pub config_max_conn_rate_per_ip : IntConfigSpec
config_max_conn_rate_per_ip = record config_max_connections {
  env_name = codes "TNT_MAX_CONN_RATE_PER_IP";
  fallback = pos 10;
}

abbrev pub config_rate_limit : IntConfigSpec
config_rate_limit = record {
  env_name = codes "TNT_RATE_LIMIT";
  fallback = pos 1;
  min_value = pos 0;
  max_value = pos 1;
}

abbrev pub config_idle_timeout : IntConfigSpec
config_idle_timeout = record {
  env_name = codes "TNT_IDLE_TIMEOUT";
  fallback = pos 1800;
  min_value = pos 0;
  max_value = pos 86400;
}

abbrev pub config_ssh_log_level : IntConfigSpec
config_ssh_log_level = record {
  env_name = codes "TNT_SSH_LOG_LEVEL";
  fallback = pos 0;
  min_value = pos 0;
  max_value = pos 4;
}
