-- ===== src/Config/Tests.antt =====
-- The range of a setting, with a `strtol` that reads one number from any text.
use tnt.Base.{[], Option, some, Bytes, codes, ◌≡◌, refl}
use tnt.Base.Int.{ℤ, pos}
use tnt.Config.{refuses, config_port, config_parse_int}

abbrev strtol : Bytes → ℤ × Bytes
strtol s = (pos 8022, [])

abbrev getenv : Bytes → Option Bytes
getenv name = some (codes "8022")

port_parses : config_parse_int strtol (codes "8022") config_port ≡ some (pos 8022)
unfolding config_parse_int refuses
port_parses = refl
