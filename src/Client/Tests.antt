-- ===== src/Client/Tests.antt =====
-- The theorems on clients at concrete hosts.
use tnt.Base.{
  ℕ, ◌≤◌, true, false, [], ◌∷◌, ◌++◌, length, take, Bytes, ◌≡◌, ◌↔◌, refl, ◌⊎◌, inl, inr, arith,
  take-all,
}
use tnt.Base.Int.{ℤ, pos, negsuc}
use tnt.Client.{
  Host, Client, send, is_exec, outbox_capacity_limit, write_loop, write_direct_locked,
  flush_output_locked, enqueue_output_locked, with_outbox, compact_outbox,
}
use tnt.Client.Write.{write_loop-fuel}
use tnt.Client.Stream.{IsOutbox, pending}
use tnt.Client.Session.{Session, IsInteractive, start, sent, Session-received}
use tnt.Client.Progress.{IsOpen, flushes, flushes-drain, send-exec}
use tnt.Client.Lifetime.{addref}
use tnt.Client.Lifetime.Owners.{World, here, next, borrow, owners, frees, IsFresh, Reach-freed}

-- A channel that takes all it is offered, three bytes at a time; its state is what it has received.
whole_write :
    (s bytes : Bytes) (n : ℕ)
    → ◌≡◌ {A = ℤ} (pos (length bytes)) (pos n)
    → (n ≤ length bytes) × (s ++ bytes ≡ s ++ take n bytes)
whole_write s bytes n h = ground (arith, take-all n bytes)

abbrev wire : Host
wire = record {
  State = Bytes;
  received = λ s. s;
  window_size = λ s. (3, s);
  write = λ s bytes. (pos (length bytes), s ++ bytes);
  blocking_flush = λ s. s;
  malloc = λ s. (true, s);
  set_callbacks = λ s. (pos 0, s);
  window_size-received = λ s. refl;
  malloc-received = λ s. refl;
  blocking_flush-received = λ s. refl;
  write-received = whole_write;
}

wire-IsOpen : IsOpen wire
wire-IsOpen = record { window = λ s. omega arith; takes = λ s bytes h. ground arith }

-- An interactive client that has sent nothing yet.
abbrev visitor : Client
visitor = record {
  connected = true;
  has_session = true;
  has_channel = true;
  exec_command = [];
  exec_command_too_long = false;
  has_outbox = false;
  outbox = [];
  outbox_pos = 0;
  outbox_capacity = 0;
  pending_bells = 1;
  redraw_pending = false;
  width = pos 80;
  height = pos 24;
  ref_count = pos 1;
  channel_callback_ref = false;
  has_channel_cb = false;
  freed = false;
}

visitor-IsInteractive : IsInteractive visitor
unfolding is_exec
visitor-IsInteractive = record {
  outbox = record {
    within = omega arith;
    capacity = omega arith;
    limit = omega arith;
    allocated = inr refl;
    sized = inl refl;
  };
  channel = refl;
  interactive = refl;
}

abbrev hello : Bytes
hello = 104 ∷ 101 ∷ 108 ∷ 108 ∷ 111 ∷ []

greeted :
    Session wire visitor [] hello (send wire visitor [] hello).1 (send wire visitor [] hello).2
unfolding send enqueue_output_locked with_outbox compact_outbox flush_output_locked
    write_direct_locked write_loop
greeted = sent hello start refl

Session-received_example :
    IsInteractive (send wire visitor [] hello).1
    × ((send wire visitor [] hello).2 ++ pending (send wire visitor [] hello).1 ≡ hello)
Session-received_example = Session-received wire greeted visitor-IsInteractive

-- It has five bytes waiting, of which the first is sent.
abbrev waiting : Client
waiting = record visitor {
  has_outbox = true;
  outbox = hello;
  outbox_pos = 1;
  outbox_capacity = outbox_capacity_limit;
}

waiting-IsOutbox : IsOutbox waiting
waiting-IsOutbox = record {
  within = omega arith;
  capacity = omega arith;
  limit = omega arith;
  allocated = inl refl;
  sized = inr refl;
}

flushes-drain_example :
    let (client', s') = flushes wire 1 waiting (104 ∷ []) in
    (pending client' ≡ []) × (client'.connected ≡ true) × (s' ≡ hello)
flushes-drain_example =
    flushes-drain wire 1 wire-IsOpen waiting (104 ∷ []) waiting-IsOutbox refl refl
      (inl (omega arith))

-- A client that runs a command.
abbrev command : Client
command = record visitor { exec_command = 115 ∷ [] }

send-exec_example :
    let (rc, client', s') = send wire command [] hello in
    ((rc ≡ pos 0) × (client' ≡ command) × (s' ≡ hello))
    ⊎ ((rc ≡ negsuc 0) × (client' ≡ record command { connected = false }))
unfolding is_exec
send-exec_example = send-exec wire command [] hello refl refl refl

write_loop-fuel_example :
    write_loop wire 9 visitor [] hello 0 0 true ≡ write_loop wire 5 visitor [] hello 0 0 true
write_loop-fuel_example =
    write_loop-fuel wire 9 5 visitor [] hello 0 0 true (omega arith) (omega arith)

abbrev fresh : World
fresh = record { client = visitor; main = true; borrowed = 0; calls = [] }

fresh-IsFresh : IsFresh fresh
fresh-IsFresh = record {
  main = refl;
  counted = refl;
  callbacks = refl;
  borrowed = refl;
  freed = refl;
  calls = refl;
}

abbrev borrowed : World
borrowed = record fresh { client = addref visitor; borrowed = 1 }

Reach-freed_example :
    (borrowed.client.ref_count ≡ pos 2)
    × (frees borrowed.calls ≡ 0)
    × ((borrowed.client.freed ≡ true) ↔ (owners borrowed ≡ 0))
unfolding addref
Reach-freed_example = Reach-freed (next here (borrow fresh refl)) fresh-IsFresh
