-- ===== src/Client/Stream.antt =====
-- The outbox as a queue in front of the channel: what a client is sent arrives once and in order.
use tnt.Base.{
  ℕ, ◌+◌, ◌≤◌, true, false, [], ◌∷◌, ◌++◌, ◌==◌, length, take, drop, Bytes, ◌≡◌, ◌⊎◌, inl, inr,
  arith, append_assoc, append-nil, length-append, length-eq-zero, length-drop, take-append-drop,
  drop-add, drop-all, if◌then◌else◌,
}
use tnt.Base.Int.{ℤ, pos, negsuc}
use tnt.Client.{
  Host, Client, write_direct_locked, compact_outbox, outbox_capacity_limit, with_outbox,
  enqueue_output_locked, flush_output_locked, is_exec, send, flush_output, outbox_flush_budget,
  flush_pending_bells,
}
use tnt.Client.Write.{write_loop-Sent}

-- The bytes that wait in the outbox.
abbrev pub pending : Client → Bytes
pending client = drop client.outbox_pos client.outbox

-- The outbox is within its capacity, the capacity within the limit.
pub record IsOutbox (client : Client) : Type 0 where
  pub within : client.outbox_pos ≤ length client.outbox
  pub capacity : length client.outbox ≤ client.outbox_capacity
  pub limit : client.outbox_capacity ≤ outbox_capacity_limit
  pub allocated : (client.has_outbox ≡ true) ⊎ (length client.outbox ≡ 0)
  pub sized : (client.has_outbox ≡ false) ⊎ (client.outbox_capacity ≡ outbox_capacity_limit)

-- What the sending functions leave alone.
pub record IsKept (client client' : Client) : Type 0 where
  pub channel : client'.has_channel ≡ client.has_channel
  pub command : client'.exec_command ≡ client.exec_command
  pub too_long : client'.exec_command_too_long ≡ client.exec_command_too_long
  pub references : client'.ref_count ≡ client.ref_count

drop_again :
    (n : ℕ) (client : Client) → drop (client.outbox_pos + n) client.outbox ≡ drop n (pending client)
drop_again n client = drop-add client.outbox_pos n client.outbox

compact_outbox_lem :
    (client : Client)
    → IsOutbox client
    → (pending (compact_outbox client) ≡ pending client)
      × ((compact_outbox client).outbox ≡ pending client)
      × ((compact_outbox client).outbox_pos ≡ 0)
      × IsOutbox (compact_outbox client)
      × IsKept client (compact_outbox client)
      × ((compact_outbox client).connected ≡ client.connected)
      × ((compact_outbox client).has_outbox ≡ client.has_outbox)
unfolding compact_outbox
compact_outbox_lem client h =
    ground
      (arith, length-drop client.outbox_pos client.outbox, drop-all client.outbox_pos client.outbox)

-- The bell that a client has pending, if any.
abbrev pub bell : Client → Bytes
bell client = if client.pending_bells == 0 then [] else 7 ∷ []

module _ (host : Host) where
  open host use {State, received, malloc-received, blocking_flush-received}

  -- A call failed and the client is disconnected, or it returned 0 and `extra` follows, in order,
  -- what the channel had taken and what waited.
  abbrev pub Streams : Client → State → Bytes → ℤ × Client × State → Type 0
  Streams client s extra (rc, client', s') =
      IsOutbox client'
      × IsKept client client'
      × (((rc ≡ negsuc 0) × (client'.connected ≡ false))
          ⊎ ((rc ≡ pos 0)
              × (client'.connected ≡ client.connected)
              × (received s' ++ pending client' ≡ received s ++ (pending client ++ extra))))

  flush_output_locked-Streams :
      (client : Client) (s : State) (budget : ℕ)
      → IsOutbox client
      → Streams client s [] (flush_output_locked host client s budget)
  unfolding flush_output_locked write_direct_locked
  flush_output_locked-Streams client s budget h =
      elim (write_loop-Sent host (length (pending client)) client s (pending client) 0 budget false
        (omega arith)) [
          | inl failed ↦ ground (
            arith,
            append-nil (received s),
            append-nil (pending client),
            drop-all client.outbox_pos client.outbox,
          )
          | inr (k, code, same, most, grown, _, _) ↦ ground (
            arith,
            append-nil (received s),
            append-nil (pending client),
            drop-all client.outbox_pos client.outbox,
            length-drop client.outbox_pos client.outbox,
            drop-all k (pending client),
            drop_again k client,
            take-append-drop k (pending client),
            append_assoc (received s) (take k (pending client)) (drop k (pending client)),
          )
        ]

  with_outbox_lem :
      (client : Client) (s : State)
      → IsOutbox client
      → let (ready, client', s') = with_outbox host client s in
        IsOutbox client'
        × IsKept client client'
        × (client'.connected ≡ client.connected)
        × (pending client' ≡ pending client)
        × (received s' ≡ received s)
        × ((ready ≡ false) ⊎ (client'.has_outbox ≡ true))
  unfolding with_outbox
  with_outbox_lem client s h =
      ground (arith, malloc-received s, drop-all client.outbox_pos client.outbox)

  enqueue_output_locked-Streams :
      (client : Client) (s : State) (bytes : Bytes)
      → IsOutbox client
      → Streams client s bytes (enqueue_output_locked host client s bytes)
  unfolding enqueue_output_locked
  enqueue_output_locked-Streams client s bytes h =
      let (ready, client', s') = with_outbox host client s in
      let (valid, kept, conn, same, silent, why) = with_outbox_lem client s h in
      ground (
        arith,
        compact_outbox_lem client' valid,
        append-nil (pending client),
        length-append (pending client') bytes,
        length-eq-zero bytes,
        append_assoc (received s) (pending client) bytes,
      )

  -- Sending to an interactive client with a channel keeps the stream: the text is refused and the
  -- client disconnected, or it stands behind all that was sent before.
  pub send-Streams :
      (client : Client) (s : State) (bytes : Bytes)
      → IsOutbox client
      → client.has_channel ≡ true
      → is_exec client ≡ false
      → Streams client s bytes (send host client s bytes)
  unfolding send
  send-Streams client s bytes h channel interactive =
      let (queued, client', s') = enqueue_output_locked host client s bytes in
      let (valid, kept, outcome) = enqueue_output_locked-Streams client s bytes h in
      ground (
        arith,
        interactive,
        flush_output_locked-Streams client' s' outbox_flush_budget valid,
        append-nil (pending client),
        append-nil (pending client'),
        length-eq-zero bytes,
      )

  pub flush_output-Streams :
      (client : Client) (s : State)
      → IsOutbox client
      → client.has_channel ≡ true
      → Streams client s [] (flush_output host client s)
  unfolding flush_output
  flush_output-Streams client s h channel =
      ground (arith, flush_output_locked-Streams client s outbox_flush_budget h)

  pub flush_pending_bells-Streams :
      (client : Client) (s : State)
      → IsOutbox client
      → client.has_channel ≡ true
      → is_exec client ≡ false
      → Streams client s (bell client) (flush_pending_bells host client s)
  unfolding flush_pending_bells is_exec
  flush_pending_bells-Streams client s h channel interactive =
      let rung = record client { pending_bells = 0 } in
      let valid : IsOutbox rung = record {
        within = h.within;
        capacity = h.capacity;
        limit = h.limit;
        allocated = h.allocated;
        sized = h.sized;
      } in
      ground
        (arith, send-Streams rung s (7 ∷ []) valid channel interactive, append-nil (pending client))
