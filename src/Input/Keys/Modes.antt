-- ===== src/Input/Keys/Modes.antt =====
-- Which keys end a session.
use tnt.Base.{ℕ, ◌≤◌, false, [], ◌==◌, if◌then◌else◌, length, ◌≡◌, refl, arith, ◌⊎◌, ◌+◌}
use tnt.Input.Channel.{Channel}
use tnt.Input.Session.{
  Session, World, insert, normal, command, ctrl_c, dismiss_command_output, normal_enter_insert,
}
use tnt.Input.Keys.{handle_key}

-- The session after Ctrl+C.
abbrev pub interrupted : World → Session → Session
interrupted w s = (handle_key w 3 s []).session

interrupt : (w : World) (s : Session) → interrupted w s ≡ ctrl_c w s
unfolding handle_key
interrupt w s = refl

-- How many Ctrl+C a session still takes.
distance : Session → ℕ
distance s =
    (if s.show_help then 1 else 0)
    + (if length s.command_output == 0
        then elim s.mode [ insert ↦ 2 | normal ↦ 1 | command ↦ 2 ]
        else if s.show_motd
        then 3
        else 2)

ctrl_c-connected : (w : World) (s : Session) → s.connected ≡ false → (ctrl_c w s).connected ≡ false
unfolding ctrl_c dismiss_command_output normal_enter_insert
ctrl_c-connected w s h = ground arith

ctrl_c-nearer :
    (w : World) (s : Session)
    → ((ctrl_c w s).connected ≡ false) ⊎ (distance (ctrl_c w s) + 1 ≤ distance s)
unfolding ctrl_c dismiss_command_output normal_enter_insert distance
ctrl_c-nearer w s = ground arith

distance_bounds : (s : Session) → (1 ≤ distance s) × (distance s ≤ 4)
unfolding distance
distance_bounds s = ground arith

-- From any state of a session, whatever is shown, the fourth Ctrl+C at the latest has disconnected
-- it.
pub interrupted-disconnects :
    (w : World) (s : Session)
    → (interrupted w (interrupted w (interrupted w (interrupted w s)))).connected ≡ false
interrupted-disconnects w s =
    let a = ctrl_c w s in
    let b = ctrl_c w a in
    let c = ctrl_c w b in
    rw (interrupt w s, interrupt w a, interrupt w b, interrupt w c)
      (ground (
        arith,
        ctrl_c-nearer w s,
        ctrl_c-nearer w a,
        ctrl_c-nearer w b,
        ctrl_c-nearer w c,
        ctrl_c-connected w a,
        ctrl_c-connected w b,
        ctrl_c-connected w c,
        distance_bounds s,
        distance_bounds (ctrl_c w c),
      ))
