-- ===== src/Room.antt =====
-- src/chat_room.c: the shared room. Each function holds `room->lock` over its body, so a call is one
-- step. `clients` is an array of pointers, each named by a number, of which the first
-- `client_count` count; `messages` is the list of the first `message_count` messages of its array.
pub mod Clients
pub mod History
pub mod Refine
mod Tests
use tnt.Base.{
  ℕ, zero, suc, ◌+◌, ◌-◌, ◌%◌, ◌^◌, Bool, List, [], ◌∷◌, ◌++◌, Option, none, some, ltb, leb, ◌==◌,
  if◌then◌else◌, length, get_elem?, get_or, set, drop, take, replicate, Bytes,
}
use tnt.Base.Int.{ℤ, pos, negsuc}

abbrev pub max_messages : ℕ
max_messages = 100

-- `message_t`
pub record Message : Type 0 where
  pub timestamp : ℤ
  pub username : Bytes
  pub content : Bytes

-- `chat_room_t`, without its lock
pub record ChatRoom : Type 0 where
  pub clients : List ℕ
  pub client_count : ℕ
  pub client_capacity : ℕ
  pub messages : List Message
  pub update_seq : ℕ

-- `room_create`, with the capacity from the environment and the messages that `message_load` gives.
pub create : ℕ → List Message → ChatRoom
create capacity loaded = record {
  clients = replicate capacity 0;
  client_count = 0;
  client_capacity = capacity;
  messages = loaded;
  update_seq = 0;
}

-- The result is `true` for 0 and `false` for -1.
pub add_client : ChatRoom → ℕ → ChatRoom × Bool
add_client room client =
    if leb room.client_capacity room.client_count then (room, Bool.false) else (
      record room {
        clients = set room.clients room.client_count client;
        client_count = room.client_count + 1;
      },
      Bool.true,
    )

-- `for (j = i; j < client_count - 1; j++) clients[j] = clients[j + 1];` with the rounds left
shift : ℕ → ℕ → List ℕ → List ℕ
shift zero j clients = clients
shift (suc rounds) j clients = shift rounds (suc j) (set clients j (get_or clients (suc j) 0))

-- The first `i` at which `clients[i] == client`, from `i` on with the rounds left.
find_client : ℕ → ℕ → List ℕ → ℕ → Option ℕ
find_client zero i clients client = none
find_client (suc rounds) i clients client =
    if get_or clients i 0 == client then some i else find_client rounds (suc i) clients client

pub remove_client : ChatRoom → ℕ → ChatRoom
unfolding shift find_client
remove_client room client = elim (find_client room.client_count 0 room.clients client) [
  | none ↦ room
  | some i ↦ record room {
    clients = shift (room.client_count - 1 - i) i room.clients;
    client_count = room.client_count - 1;
  }
]

-- `room_add_message`: the `memmove` drops the oldest message of a full history.
pub add_message : ChatRoom → Message → ChatRoom
add_message room msg =
    let kept =
      if leb max_messages (length room.messages)
      then take (max_messages - 1) (drop 1 room.messages)
      else room.messages in
    record room { messages = kept ++ msg ∷ [] }

-- `room_broadcast`; `update_seq` is a `uint64_t`.
pub broadcast : ChatRoom → Message → ChatRoom
broadcast room msg =
    let room' = add_message room msg in
    record room' { update_seq = (room'.update_seq + 1) % 2 ^ 64 }

-- `room_get_message`: `none` is `false`.
pub get_message : ChatRoom → ℤ → Option Message
get_message room (pos index) = get_elem? room.messages index
get_message room (negsuc index) = none

-- `room_get_message_count`, `room_get_client_count` and `room_get_update_seq`
pub get_message_count : ChatRoom → ℕ
get_message_count room = length room.messages

pub get_client_count : ChatRoom → ℕ
get_client_count room = room.client_count

pub get_update_seq : ChatRoom → ℕ
get_update_seq room = room.update_seq
