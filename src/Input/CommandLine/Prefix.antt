-- ===== src/Input/CommandLine/Prefix.antt =====
-- src/input.c: completion goes by bytes.
use tnt.Input.Session.{Session}
