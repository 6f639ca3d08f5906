-- ===== src/Client/Lifetime/Owners.antt =====
-- Who owns a client: the session (the reference that bootstrap creates), the channel's callbacks,
-- and other threads that hold it while they notify it. No order of their steps frees it early,
-- twice or never.
use tnt.Base.{
  ℕ, suc, ◌+◌, ◌-◌, ◌≤◌, Bool, true, false, List, [], ◌∷◌, ◌++◌, ◌==◌, ◌≡◌, ◌↔◌, refl, arith,
  if◌then◌else◌, Bool-cases, inl, inr, ◌&&◌,
}
use tnt.Base.Int.{pos, ◌+ℤ◌, ◌-ℤ◌}
use tnt.Client.{Client}
use tnt.Client.Lifetime.{
  Call, free_client, addref, release, release_session, install_channel_callbacks, teardown,
  remove_channel_callbacks, channel_close, channel_free, disconnect, session_free, free_callbacks,
  call_if,
}

-- The client, whether the session holds its reference, how many references other threads hold, and
-- the calls made so far.
pub record World : Type 0 where
  pub client : Client
  pub main : Bool
  pub borrowed : ℕ
  pub calls : List Call

abbrev pub after : World → Client × List Call → World
after w (client, calls) = record w { client = client; calls = w.calls ++ calls }

-- Another thread borrows a client while it is in the room, so before its session ends.
pub data Step : World → World → Type 0 where
  borrow :
      (w : World)
      → w.main ≡ true
      → Step w (record w { client = addref w.client; borrowed = suc w.borrowed })
  give_back :
      (w : World) (open_channel : Bool) (n : ℕ)
      → w.borrowed ≡ suc n
      → Step w (record (after w (release open_channel w.client)) { borrowed = n })
  install :
      (w : World) (open_channel allocated accepted : Bool)
      → w.main ≡ true
      → w.client.channel_callback_ref ≡ false
      → Step w (
          after w (
            let (rc, client, calls) =
              install_channel_callbacks open_channel allocated accepted w.client in
            (client, calls)))
  abandon :
      (w : World) (open_channel : Bool)
      → w.main ≡ true
      → w.client.channel_callback_ref ≡ false
      → Step w
          (record (after w
            (release open_channel (record w.client { has_session = false; has_channel = false }))) {
              main = false;
            })
  finish :
      (w : World) (open_channel : Bool)
      → w.main ≡ true
      → Step w (record (after w (release_session open_channel w.client)) { main = false })

pub data Reach (s : World) : World → Type 0 where
  here : Reach s s
  next : {t u : World} → Reach s t → Step t u → Reach s u

abbrev pub one : Bool → ℕ
one b = if b then 1 else 0

-- The references that are held.
abbrev pub owners : World → ℕ
owners w = one w.main + one w.client.channel_callback_ref + w.borrowed

abbrev pub frees_one : Call → ℕ
frees_one free_client = 1
frees_one remove_channel_callbacks = 0
frees_one channel_close = 0
frees_one channel_free = 0
frees_one disconnect = 0
frees_one session_free = 0
frees_one free_callbacks = 0

-- How often the client was freed.
abbrev pub frees : List Call → ℕ
frees [] = 0
frees (call ∷ calls) = frees_one call + frees calls

-- The count is the number of owners, and the client was freed once if there are none and not
-- before.
pub record IsOwned (w : World) : Type 0 where
  pub counted : w.client.ref_count ≡ pos (owners w)
  pub callbacks : one w.client.channel_callback_ref ≤ one w.main
  pub once : frees w.calls ≡ one (owners w == 0)
  pub marked : w.client.freed ≡ (owners w == 0)

frees-append : (xs ys : List Call) → frees (xs ++ ys) ≡ frees xs + frees ys
frees-append [] ys = omega arith
frees-append (x ∷ xs) ys = omega (arith, frees-append xs ys)

frees-teardown : (open_channel : Bool) (client : Client) → frees (teardown open_channel client) ≡ 1
unfolding teardown
frees-teardown open_channel client = ground arith

-- A release of the last reference frees the client, any other only counts.
release_lem :
    (open_channel : Bool) (client : Client) (n : ℕ)
    → client.ref_count ≡ pos (suc n)
    → let (client', calls) = release open_channel client in
      (client'.ref_count ≡ pos n)
      × (client'.channel_callback_ref ≡ client.channel_callback_ref)
      × (client'.freed ≡ (if n == 0 then true else client.freed))
      × (frees calls ≡ one (n == 0))
unfolding release ◌-ℤ◌
release_lem open_channel client n h =
    ground
      (arith, frees-teardown open_channel (record client { ref_count = client.ref_count -ℤ pos 1 }))

addref_lem :
    (client : Client) (n : ℕ) → client.ref_count ≡ pos n → (addref client).ref_count ≡ pos (suc n)
unfolding addref ◌+ℤ◌
addref_lem client n h = ground arith

addref_kept :
    (client : Client)
    → ((addref client).freed ≡ client.freed)
      × ((addref client).channel_callback_ref ≡ client.channel_callback_ref)
unfolding addref
addref_kept client = (refl, refl)

install_channel_callbacks_lem :
    (open_channel allocated accepted : Bool) (client : Client) (n : ℕ)
    → client.ref_count ≡ pos (suc n)
    → client.channel_callback_ref ≡ false
    → let (rc, client', calls) = install_channel_callbacks open_channel allocated accepted client in
      (client'.ref_count ≡ pos (suc n + one client'.channel_callback_ref))
      × (client'.freed ≡ client.freed)
      × (frees calls ≡ 0)
unfolding install_channel_callbacks
install_channel_callbacks_lem o allocated accepted client n h fresh =
    let owned = record (addref client) { channel_callback_ref = false } in
    ground (
      arith,
      addref_lem client (suc n) h,
      addref_kept client,
      release_lem o owned (suc n) (addref_lem client (suc n) h),
    )

release_session_lem :
    (open_channel : Bool) (client : Client) (n : ℕ)
    → client.ref_count ≡ pos (suc n + one client.channel_callback_ref)
    → let (client', calls) = release_session open_channel client in
      (client'.ref_count ≡ pos n)
      × (client'.channel_callback_ref ≡ false)
      × (client'.freed ≡ (if n == 0 then true else client.freed))
      × (frees calls ≡ one (n == 0))
unfolding release_session
release_session_lem o client n h =
    let first =
      release o (record client { has_channel_cb = false; channel_callback_ref = false }) in
    let bare = record client { has_channel_cb = false } in
    let removed =
      call_if (client.has_channel && client.has_channel_cb) remove_channel_callbacks
      ++ call_if client.has_channel_cb free_callbacks in
    let none_freed : frees removed ≡ 0 = ground arith in
    elim (Bool-cases client.channel_callback_ref) [
      | inl callbacks ↦ rw callbacks (
          ground (
            arith,
            none_freed,
            release_lem o (record bare { channel_callback_ref = false }) (suc n) (ground arith),
            release_lem o first.0 n,
            frees-append removed (first.1 ++ (release o first.0).1),
            frees-append first.1 (release o first.0).1,
          ))
      | inr bare_ref ↦ rw bare_ref (
          ground (
            arith,
            none_freed,
            release_lem o bare n (ground arith),
            frees-append removed (release o bare).1,
          ))
    ]

Step-IsOwned : {t u : World} → Step t u → IsOwned t → IsOwned u
unfolding addref
Step-IsOwned (borrow w held) h = ground (arith, addref_lem w.client (owners w) h.counted)
Step-IsOwned (give_back w o n held) h = ground (
  arith,
  frees-append w.calls (release o w.client).1,
  release_lem o w.client (owners w - 1) (ground arith),
)
Step-IsOwned (install w o allocated accepted held fresh) h =
    let (rc, client', calls) = install_channel_callbacks o allocated accepted w.client in
    ground (
      arith,
      frees-append w.calls calls,
      install_channel_callbacks_lem o allocated accepted w.client (owners w - 1) (ground arith)
          fresh,
    )
Step-IsOwned (abandon w o held fresh) h =
    let bare = record w.client { has_session = false; has_channel = false } in
    ground (
      arith,
      frees-append w.calls (release o bare).1,
      release_lem o bare (owners w - 1) (ground arith),
    )
Step-IsOwned (finish w o held) h =
    let (client', calls) = release_session o w.client in
    ground
      (arith, frees-append w.calls calls, release_session_lem o w.client w.borrowed (ground arith))

Reach-IsOwned : {s t : World} → IsOwned s → Reach s t → IsOwned t
Reach-IsOwned h here = h
Reach-IsOwned h (next before step) = Step-IsOwned step (Reach-IsOwned h before)

-- The client as bootstrap makes it: one reference, no callbacks, nothing freed.
pub record IsFresh (w : World) : Type 0 where
  pub main : w.main ≡ true
  pub counted : w.client.ref_count ≡ pos 1
  pub callbacks : w.client.channel_callback_ref ≡ false
  pub borrowed : w.borrowed ≡ 0
  pub freed : w.client.freed ≡ false
  pub calls : w.calls ≡ []

-- From the client that bootstrap makes, after any steps of its owners: the count is the number of
-- references that are held, `free` was called once if none is held and not at all while one is, and
-- the client is marked as freed exactly then.
pub Reach-freed :
    {s t : World}
    → Reach s t
    → IsFresh s
    → (t.client.ref_count ≡ pos (owners t))
      × (frees t.calls ≡ one (owners t == 0))
      × ((t.client.freed ≡ true) ↔ (owners t ≡ 0))
Reach-freed {s} {t} steps fresh =
    let owned : IsOwned s = ground (arith, fresh.calls) in
    let h = Reach-IsOwned owned steps in (h.counted, h.once, ground (arith, h.marked))
