-- ===== src/Client/Progress.antt =====
-- What an exec client gets, and how a channel that stays open empties the outbox.
use tnt.Base.{
  ℕ, zero, suc, ◌+◌, ◌-◌, ◌*◌, ◌≤◌, ◌<◌, true, false, [], ◌++◌, length, take, drop, Bytes, ◌≡◌,
  refl, ◌∙◌, sym, ◌⊎◌, inl, inr, arith, length-drop, take-all, length-take, length-eq-zero,
  append-nil,
}
use tnt.Base.Int.{pos, negsuc, pos_part, ltb_ℤ}
use tnt.Client.{
  Host, Client, chunk_size, write_loop, write_direct_locked, flush_output_locked, is_exec, send,
  flush_output, outbox_flush_budget,
}
use tnt.Client.Write.{write_loop-Sent}
use tnt.Client.Stream.{IsOutbox, pending, flush_output-Streams}

module _ (host : Host) where
  open host use {State, received, window_size, write, blocking_flush-received}

  -- To a connected exec client a text is sent whole or not at all as the caller sees it: the call
  -- returns 0, the channel has received all of it behind what it had and the client is unchanged,
  -- or it returns -1 and the client is disconnected.
  pub send-exec :
      (client : Client) (s : State) (bytes : Bytes)
      → client.connected ≡ true
      → client.has_channel ≡ true
      → is_exec client ≡ true
      → let (rc, client', s') = send host client s bytes in
        ((rc ≡ pos 0) × (client' ≡ client) × (received s' ≡ received s ++ bytes))
        ⊎ ((rc ≡ negsuc 0) × (client' ≡ record client { connected = false }))
  unfolding send write_direct_locked
  send-exec client s bytes connected channel exec =
      elim (write_loop-Sent host (length bytes) client s bytes 0 0 true (omega arith)) [
        | inl failed ↦
            ground (
              arith,
              exec,
              connected,
              channel,
              failed,
              length-eq-zero bytes,
              append-nil (received s),
            )
        | inr (k, code, same, most, grown, _, why) ↦ ground (
          arith,
          length-eq-zero bytes,
          append-nil (received s),
          take-all k bytes,
          blocking_flush-received (write_loop host (length bytes) client s bytes 0 0 true).2,
        )
      ]

  -- A host whose window never closes and whose channel takes a byte at least of each write.
  pub record IsOpen : Type 0 where
    pub window : (s : State) → 0 < (window_size s).0
    pub takes :
        (s : State) (bytes : Bytes) → 0 < length bytes → ltb_ℤ (pos 0) (write s bytes).0 ≡ true

  write_loop-flag :
      (open_host : IsOpen) (fuel : ℕ) (client : Client) (s : State) (rest : Bytes)
      (total budget : ℕ)
      → write_loop host fuel client s rest total budget false
        ≡ write_loop host fuel client s rest total budget true
  unfolding write_loop
  write_loop-flag o zero client s rest total budget = refl
  write_loop-flag o (suc fuel) client s rest total budget =
      let (window, s') = window_size s in
      let (sent, s'') = write s' (take (chunk_size (length rest) window budget) rest) in
      let n = pos_part sent in
      ground (
        arith,
        o.window s,
        write_loop-flag o fuel client s'' (drop n rest) (total + n) (budget - n),
      )

  chunk_size-pos :
      (remaining window budget : ℕ)
      → 0 < remaining
      → 0 < window
      → 0 < chunk_size remaining window budget
  unfolding chunk_size
  chunk_size-pos remaining window budget h k = ground arith

  write_loop-never_fails :
      (open_host : IsOpen) (fuel : ℕ) (client : Client) (s : State) (rest : Bytes)
      (total budget : ℕ)
      → ltb_ℤ (write_loop host fuel client s rest total budget true).0 (pos 0) ≡ false
  unfolding write_loop
  write_loop-never_fails o zero client s rest total budget = ground arith
  write_loop-never_fails o (suc fuel) client s rest total budget =
      let (window, s') = window_size s in
      let offered = take (chunk_size (length rest) window budget) rest in
      let (sent, s'') = write s' offered in
      let n = pos_part sent in
      ground (
        arith,
        o.window s,
        o.takes s' offered,
        length-take (chunk_size (length rest) window budget) rest,
        chunk_size-pos (length rest) window budget,
        write_loop-never_fails o fuel client s'' (drop n rest) (total + n) (budget - n),
      )

  flush_output-takes :
      (open_host : IsOpen) (client : Client) (s : State)
      → IsOutbox client
      → client.connected ≡ true
      → client.has_channel ≡ true
      → ((flush_output host client s).0 ≡ pos 0)
        × (length (pending (flush_output host client s).1)
            ≡ length (pending client) - outbox_flush_budget)
  unfolding flush_output flush_output_locked write_direct_locked
  flush_output-takes o client s h connected channel =
      let waiting = pending client in
      let fuel = length waiting in
      let flag = write_loop-flag o fuel client s waiting 0 outbox_flush_budget in
      let runs = write_loop-never_fails o fuel client s waiting 0 outbox_flush_budget in
      elim (write_loop-Sent host fuel client s waiting 0 outbox_flush_budget true (omega arith)) [
        | inl failed ↦ absurd (ground arith)
        | inr (k, code, same, most, grown, within, why) ↦
            rw (flag, code, same)
              (let left : length (drop (client.outbox_pos + k) client.outbox) ≡ fuel - k = omega (
                arith,
                length-drop client.outbox_pos client.outbox,
                length-drop (client.outbox_pos + k) client.outbox,
              ) in
                ground (arith, length-drop client.outbox_pos client.outbox))
      ]

  -- One flush over an open channel succeeds and takes the budget off what waits.
  flush_output-open :
      (open_host : IsOpen) (client : Client) (s : State)
      → IsOutbox client
      → client.connected ≡ true
      → client.has_channel ≡ true
      → let (rc, client', s') = flush_output host client s in
        (rc ≡ pos 0)
        × (length (pending client') ≡ length (pending client) - outbox_flush_budget)
        × IsOutbox client'
        × (client'.connected ≡ true)
        × (client'.has_channel ≡ true)
        × (received s' ++ pending client' ≡ received s ++ pending client)
  flush_output-open o client s h connected channel = ground (
    arith,
    flush_output-takes o client s h connected channel,
    flush_output-Streams host client s h channel,
    append-nil (pending client),
  )

  -- `count` flushes, whatever they return.
  abbrev pub flushes : ℕ → Client → State → Client × State
  flushes zero client s = (client, s)
  flushes (suc count) client s =
      let (rc, client', s') = flush_output host client s in flushes count client' s'

  drained :
      (count : ℕ) (open_host : IsOpen) (client : Client) (s : State)
      → IsOutbox client
      → client.connected ≡ true
      → client.has_channel ≡ true
      → length (pending client) ≤ count * outbox_flush_budget
      → let (client', s') = flushes count client s in
        (pending client' ≡ [])
        × (client'.connected ≡ true)
        × (received s' ≡ received s ++ pending client)
  drained zero o client s h connected channel enough =
      let empty = length-eq-zero (pending client) (omega arith) in
      (empty, connected, rw empty (sym (append-nil (received s))))
  drained (suc count) o client s h connected channel enough =
      let (rc, client', s') = flush_output host client s in
      let (_, left, valid, stays, keeps, same) = flush_output-open o client s h connected channel in
      let (empty, still, all) = drained count o client' s' valid stays keeps (omega arith) in
      (empty, still, all ∙ same)

  -- If the window stays open and each write takes something, a connected client's outbox is empty
  -- after as many flushes as the budget goes into what waits, four at most; the channel has then
  -- received all that waited, in order, and the client is still connected.
  pub flushes-drain :
      (count : ℕ) (open_host : IsOpen) (client : Client) (s : State)
      → IsOutbox client
      → client.connected ≡ true
      → client.has_channel ≡ true
      → (length (pending client) ≤ count * outbox_flush_budget) ⊎ (4 ≤ count)
      → let (client', s') = flushes count client s in
        (pending client' ≡ [])
        × (client'.connected ≡ true)
        × (received s' ≡ received s ++ pending client)
  flushes-drain count o client s h connected channel enough =
      drained count o client s h connected channel
        (omega (arith, h.capacity, h.limit, length-drop client.outbox_pos client.outbox))
