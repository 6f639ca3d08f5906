-- ===== src/Client/Session.antt =====
-- A session of an interactive client as a relation, over every order of the calls and with the
-- network moving between them.
use tnt.Base.{
  true, false, [], ◌++◌, Bytes, ◌≡◌, refl, ◌∙◌, sym, ap, arith, append_assoc, append-nil,
}
use tnt.Base.Int.{ℤ, pos}
use tnt.Client.{Host, Client, is_exec, send, flush_output, flush_pending_bells, queue_bell}
use tnt.Client.Stream.{
  IsOutbox, pending, bell, Streams, send-Streams, flush_output-Streams, flush_pending_bells-Streams,
}

-- An interactive client whose outbox is in order.
pub record IsInteractive (client : Client) : Type 0 where
  pub outbox : IsOutbox client
  pub channel : client.has_channel ≡ true
  pub interactive : is_exec client ≡ false

queue_bell-IsInteractive :
    (client : Client)
    → IsInteractive client
    → IsInteractive (queue_bell client) × (pending (queue_bell client) ≡ pending client)
unfolding queue_bell is_exec
queue_bell-IsInteractive client h = ground arith

-- From a client and a host, calls that succeeded lead to others and to the text sent meanwhile.
-- `elsewhere` is what happens between the calls: the network moves, and takes nothing from us.
pub data Session (host : Host) (client : Client) (s : host.State)
    : Bytes → Client → host.State → Type 0 where
  start : Session host client s [] client s
  sent :
      {text : Bytes} {client' : Client} {s' : host.State} (bytes : Bytes)
      → Session host client s text client' s'
      → (send host client' s' bytes).0 ≡ pos 0
      → Session host client s
          (text ++ bytes)
          (send host client' s' bytes).1
          (send host client' s' bytes).2
  flushed :
      {text : Bytes} {client' : Client} {s' : host.State}
      → Session host client s text client' s'
      → (flush_output host client' s').0 ≡ pos 0
      → Session host client s text (flush_output host client' s').1 (flush_output host client' s').2
  rung :
      {text : Bytes} {client' : Client} {s' : host.State}
      → Session host client s text client' s'
      → (flush_pending_bells host client' s').0 ≡ pos 0
      → Session host client s
          (text ++ bell client')
          (flush_pending_bells host client' s').1
          (flush_pending_bells host client' s').2
  queued :
      {text : Bytes} {client' : Client} {s' : host.State}
      → Session host client s text client' s'
      → Session host client s text (queue_bell client') s'
  elsewhere :
      {text : Bytes} {client' : Client} {s' : host.State} (s'' : host.State)
      → Session host client s text client' s'
      → host.received s'' ≡ host.received s'
      → Session host client s text client' s''

module _ (host : Host) where
  open host use {State, received, blocking_flush-received}

  -- The text of a call that succeeded comes behind `text`.
  step :
      (client client' : Client) (s s' : State) (text bytes : Bytes) (r : ℤ × Client × State)
      → IsInteractive client'
      → received s' ++ pending client' ≡ (received s ++ pending client) ++ text
      → Streams host client' s' bytes r
      → r.0 ≡ pos 0
      → IsInteractive r.1
        × (received r.2 ++ pending r.1 ≡ (received s ++ pending client) ++ (text ++ bytes))
  unfolding is_exec
  step client client' s s' text bytes r valid so_far streams ok = ground (
    arith,
    append_assoc (received s') (pending client') bytes,
    append_assoc (received s ++ pending client) text bytes,
  )

  -- While every send, flush and ring of the bell of an interactive client succeeds, in whatever order
  -- they are called and however many bytes the channel takes at a time, what it has received and what
  -- waits in the outbox is what it had received and what waited at first, followed by all the text
  -- sent since, once and in order; the client stays interactive, its outbox within its capacity.
  pub Session-received :
      {client : Client} {s : State} {text : Bytes} {client' : Client} {s' : State}
      → Session host client s text client' s'
      → IsInteractive client
      → IsInteractive client'
        × (received s' ++ pending client' ≡ (received s ++ pending client) ++ text)
  Session-received {client} {s} start h = (h, sym (append-nil (received s ++ pending client)))
  Session-received {client} {s} (sent {text} {client' = c} {s' = t} bytes before ok) h =
      let (valid, same) = Session-received before h in
      step client c s t text bytes (send host c t bytes) valid same
        (send-Streams host c t bytes valid.outbox valid.channel valid.interactive) ok
  Session-received {client} {s} (flushed {text} {client' = c} {s' = t} before ok) h =
      let (valid, same) = Session-received before h in
      let (valid', same') =
        step client c s t text [] (flush_output host c t) valid same
          (flush_output-Streams host c t valid.outbox valid.channel) ok in
      (valid', same' ∙ rw (append-nil text) refl)
  Session-received {client} {s} (rung {text} {client' = c} {s' = t} before ok) h =
      let (valid, same) = Session-received before h in
      step client c s t text (bell c) (flush_pending_bells host c t) valid same
        (flush_pending_bells-Streams host c t valid.outbox valid.channel valid.interactive) ok
  Session-received (queued {client' = c} before) h =
      let (valid, same) = Session-received before h in
      let (valid', kept) = queue_bell-IsInteractive c valid in (valid', rw kept same)
  Session-received (elsewhere {client' = c} s'' before silent) h =
      let (valid, same) = Session-received before h in
      (valid, ap (λ (t : Bytes). t ++ pending c) silent ∙ same)
