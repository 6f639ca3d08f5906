-- ===== src/Client/Lifetime.antt =====
-- src/client.c: the references to a client, and the callbacks of its channel. What is called on
-- libssh and the allocator is listed in order; `freed` marks a client whose memory is given back.
pub mod Owners
use tnt.Base.{
  ℕ, Bool, true, false, not, ◌&&◌, ◌||◌, List, [], ◌∷◌, ◌++◌, ◌==◌, if◌then◌else◌, length, ◌≡◌,
}
use tnt.Base.Int.{ℤ, pos, negsuc, ◌+ℤ◌, ◌-ℤ◌}
use tnt.Common.{sanitize_terminal_size}
use tnt.Client.{Client}

pub data Call : Type 0 where
  remove_channel_callbacks : Call
  channel_close : Call
  channel_free : Call
  disconnect : Call
  session_free : Call
  free_callbacks : Call
  free_client : Call

abbrev pub call_if : Bool → Call → List Call
call_if test call = if test then call ∷ [] else []

unfoldable pub addref : Client → Client
addref client = record client { ref_count = client.ref_count +ℤ pos 1 }

abbrev pub is_zero : ℤ → Bool
is_zero (pos n) = n == 0
is_zero (negsuc n) = false

-- What the last release calls; `channel_open` is the answer of `ssh_channel_is_open`.
unfoldable pub teardown : Bool → Client → List Call
teardown channel_open client =
    call_if (client.has_channel && client.has_channel_cb) remove_channel_callbacks
    ++ (call_if (client.has_channel && channel_open) channel_close
        ++ (call_if client.has_channel channel_free
            ++ (call_if client.has_session disconnect
                ++ (call_if client.has_session session_free
                    ++ (call_if client.has_channel_cb free_callbacks ++ free_client ∷ [])))))

unfoldable pub release : Bool → Client → Client × List Call
release channel_open client =
    let released = record client { ref_count = client.ref_count -ℤ pos 1 } in
    if is_zero released.ref_count
    then (record released { freed = true }, teardown channel_open released)
    else (released, [])

unfoldable pub release_session : Bool → Client → Client × List Call
release_session channel_open client =
    let removed =
      call_if (client.has_channel && client.has_channel_cb) remove_channel_callbacks
      ++ call_if client.has_channel_cb free_callbacks in
    let bare = record client { has_channel_cb = false } in
    let (client', calls) =
      if bare.channel_callback_ref
      then release channel_open (record bare { channel_callback_ref = false })
      else (bare, []) in
    let (client'', calls') = release channel_open client' in
    (client'', removed ++ (calls ++ calls'))

-- `client_install_channel_callbacks`; `allocated` and `accepted` are the answers of `calloc` and
-- `ssh_set_channel_callbacks`.
unfoldable pub install_channel_callbacks : Bool → Bool → Bool → Client → ℤ × Client × List Call
install_channel_callbacks channel_open allocated accepted client =
    let owned = record (addref client) { channel_callback_ref = true } in
    let (undone, calls) = release channel_open (record owned { channel_callback_ref = false }) in
    if not client.has_channel
    then (negsuc 0, client, [])
    else if not allocated
    then (negsuc 0, record undone { has_channel_cb = false }, calls)
    else if not accepted
    then (negsuc 0, record undone { has_channel_cb = false }, free_callbacks ∷ calls)
    else (pos 0, record owned { has_channel_cb = true }, [])

-- The callbacks. `userdata` is the client; a missing one is refused or ignored.
unfoldable pub channel_window_change : ℤ → ℤ → Client → Client
channel_window_change width height client =
    let (w, h) = sanitize_terminal_size width height in
    record client { width = w; height = h; redraw_pending = true }

unfoldable pub channel_eof : Client → Client
channel_eof client =
    if length client.exec_command == 0 then record client { connected = false } else client

unfoldable pub channel_close_callback : Client → Client
channel_close_callback client = record client { connected = false }
