-- ===== src/Client.antt =====
-- src/client.c: sending to a client over its SSH channel through a bounded outbox, the callbacks of
-- the channel, and the references that keep the client alive. Each function that takes `io_lock` or
-- `ref_lock` holds it over its body, so a call is one step. A return code is an integer. Lengths
-- stay far below 2^31, so the cast of a length to `int` keeps it.
pub mod Write
pub mod Stream
pub mod Session
pub mod Progress
pub mod Lifetime
mod Tests
use tnt.Base.{
  Option, none, some, ℕ, zero, suc, ◌+◌, ◌-◌, ◌≤◌, Bool, true, false, not, ◌&&◌, ◌||◌, [], ◌∷◌,
  ◌++◌, ltb, leb, ◌==◌, if◌then◌else◌, length, take, drop, Bytes, ◌≡◌,
}
use tnt.Base.Int.{ℤ, pos, negsuc, ltb_ℤ, pos_part, ◌+ℤ◌, ◌-ℤ◌}
use tnt.Common.{sanitize_terminal_size}

-- What libssh and the allocator answer. Both ends of a channel change while the server works, so
-- each call leads to a new state of the host. `received` is what a channel has taken so far: asking
-- for the window sends nothing, and a write that answers n > 0 took the first n bytes offered.
pub record Host : Type 1 where
  pub State : Type 0
  pub received : State → Bytes
  pub window_size : State → ℕ × State
  pub write : State → Bytes → ℤ × State
  pub blocking_flush : State → State
  pub malloc : State → Bool × State
  pub set_callbacks : State → ℤ × State
  pub window_size-received : (s : State) → received (window_size s).1 ≡ received s
  pub malloc-received : (s : State) → received (malloc s).1 ≡ received s
  pub blocking_flush-received : (s : State) → received (blocking_flush s) ≡ received s
  pub write-received :
      (s : State) (bytes : Bytes) (n : ℕ)
      → (write s bytes).0 ≡ pos n
      → (n ≤ length bytes) × (received (write s bytes).1 ≡ received s ++ take n bytes)

-- The fields of `client_t` that the file works on. `outbox` holds the first `outbox_len` bytes of
-- the array; `has_outbox` says that the array is allocated, and `has_…` that a pointer is not NULL.
pub record Client : Type 0 where
  pub connected : Bool
  pub has_session : Bool
  pub has_channel : Bool
  pub exec_command : Bytes
  pub exec_command_too_long : Bool
  pub has_outbox : Bool
  pub outbox : Bytes
  pub outbox_pos : ℕ
  pub outbox_capacity : ℕ
  pub pending_bells : ℕ
  pub redraw_pending : Bool
  pub width : ℤ
  pub height : ℤ
  pub ref_count : ℤ
  pub channel_callback_ref : Bool
  pub has_channel_cb : Bool
  pub freed : Bool

abbrev pub outbox_capacity_limit : ℕ
outbox_capacity_limit = 131072

abbrev pub outbox_flush_budget : ℕ
outbox_flush_budget = 32768

unfoldable pub send_fail : Client → ℤ × Client
send_fail client = (negsuc 0, record client { connected = false })

unfoldable pub is_exec : Client → Bool
is_exec client = not (length client.exec_command == 0) || client.exec_command_too_long

-- How much of `remaining` bytes one round offers to the channel; a budget of 0 sets no bound.
pub chunk_size : ℕ → ℕ → ℕ → ℕ
chunk_size remaining window budget =
    let chunk = if ltb 32768 remaining then 32768 else remaining in
    let fitting = if ltb window chunk then window else chunk in
    if ltb 0 budget && ltb budget fitting then budget else fitting

unfoldable pub compact_outbox : Client → Client
compact_outbox client =
    if not client.has_outbox || client.outbox_pos == 0
    then client
    else if ltb client.outbox_pos (length client.outbox)
    then record client { outbox = drop client.outbox_pos client.outbox; outbox_pos = 0 }
    else record client { outbox = []; outbox_pos = 0 }

module _ (host : Host) where
  open host use {State, window_size, write, blocking_flush, malloc}

  -- The loop of `client_write_direct_locked`, with a bound on its rounds. `rest` is the text from
  -- `data + total` on.
  unfoldable pub write_loop : ℕ → Client → State → Bytes → ℕ → ℕ → Bool → ℤ × Client × State
  unfolding send_fail chunk_size
  write_loop zero client s rest total budget fail_on_closed_window = (pos total, client, s)
  write_loop (suc fuel) client s rest total budget fail_on_closed_window =
      let (window, s') = window_size s in
      let (sent, s'') = write s' (take (chunk_size (length rest) window budget) rest) in
      let n = pos_part sent in
      let (failed, dropped) = send_fail client in
      let more =
        write_loop fuel client s'' (drop n rest) (total + n) (budget - n) fail_on_closed_window in
      if length rest == 0
      then (pos total, client, s)
      else if window == 0
      then (if fail_on_closed_window then (failed, dropped, s') else (pos total, client, s'))
      else if not (ltb_ℤ (pos 0) sent)
      then (failed, dropped, s'')
      else if ltb 0 budget && budget - n == 0
      then (pos (total + n), client, s'')
      else more

  -- Each round sends a byte at least, so the length is fuel enough.
  unfoldable pub write_direct_locked : Client → State → Bytes → ℕ → Bool → ℤ × Client × State
  write_direct_locked client s bytes budget fail_on_closed_window =
      write_loop (length bytes) client s bytes 0 budget fail_on_closed_window

  unfoldable pub flush_output_locked : Client → State → ℕ → ℤ × Client × State
  flush_output_locked client s budget =
      let pending = drop client.outbox_pos client.outbox in
      let (sent, client', s') = write_direct_locked client s pending budget false in
      let outbox_pos = client.outbox_pos + pos_part sent in
      if not client.has_outbox
      then (pos 0, client, s)
      else if leb (length client.outbox) client.outbox_pos
      then (pos 0, record client { outbox = []; outbox_pos = 0 }, s)
      else if ltb_ℤ sent (pos 0)
      then (negsuc 0, client', s')
      else if leb (length client.outbox) outbox_pos
      then (pos 0, record client' { outbox = []; outbox_pos = 0 }, s')
      else (pos 0, record client' { outbox_pos = outbox_pos }, s')

  -- The outbox, allocated when it is first needed.
  unfoldable pub with_outbox : Client → State → Bool × Client × State
  with_outbox client s =
      let (allocated, s') = malloc s in
      if client.has_outbox
      then (true, client, s)
      else if allocated
      then (
        true,
        record client {
          has_outbox = true;
          outbox_capacity = outbox_capacity_limit;
          outbox = [];
          outbox_pos = 0;
        },
        s',
      )
      else (false, client, s')

  unfoldable pub enqueue_output_locked : Client → State → Bytes → ℤ × Client × State
  unfolding send_fail
  enqueue_output_locked client s bytes =
      let (ready, client', s') = with_outbox client s in
      let compact = compact_outbox client' in
      if length bytes == 0
      then (pos 0, client, s)
      else if ltb outbox_capacity_limit (length bytes)
      then (let (rc, dropped) = send_fail client in (rc, dropped, s))
      else if not ready
      then (let (rc, dropped) = send_fail client' in (rc, dropped, s'))
      else if ltb compact.outbox_capacity (length compact.outbox + length bytes)
      then (let (rc, dropped) = send_fail compact in (rc, dropped, s'))
      else (pos 0, record compact { outbox = compact.outbox ++ bytes }, s')

  -- `client_send`
  unfoldable pub send : Client → State → Bytes → ℤ × Client × State
  unfolding send_fail is_exec
  send client s bytes =
      let (written, client', s') = write_direct_locked client s bytes 0 true in
      let (queued, client'', s'') = enqueue_output_locked client s bytes in
      if length bytes == 0
      then (pos 0, client, s)
      else if not client.connected || not client.has_channel
      then (negsuc 0, client, s)
      else if is_exec client
      then (if ltb_ℤ written (pos 0)
          then (written, client', blocking_flush s')
          else if pos_part written == length bytes
          then (pos 0, client', blocking_flush s')
          else (let (rc, dropped) = send_fail client' in (rc, dropped, blocking_flush s')))
      else if ltb_ℤ queued (pos 0)
      then (queued, client'', s'')
      else flush_output_locked client'' s'' outbox_flush_budget

  -- `client_flush_output`
  unfoldable pub flush_output : Client → State → ℤ × Client × State
  flush_output client s =
      if not client.connected || not client.has_channel
      then (negsuc 0, client, s)
      else flush_output_locked client s outbox_flush_budget

  -- `client_flush_pending_bells`; the text is the bell, "\a".
  unfoldable pub flush_pending_bells : Client → State → ℤ × Client × State
  flush_pending_bells client s =
      if client.pending_bells == 0
      then (pos 0, client, s)
      else send (record client { pending_bells = 0 }) s (7 ∷ [])

  -- `client_printf`: what `vsnprintf` makes of the format, or `none` for its error.
  pub printf : Client → State → Option Bytes → ℤ × Client × State
  printf client s none = (negsuc 0, client, s)
  printf client s (some text) =
      if leb 2048 (length text) then (negsuc 0, client, s) else send client s text

unfoldable pub queue_bell : Client → Client
queue_bell client = record client { pending_bells = 1; redraw_pending = true }
