-- ===== src/Room/Refine.antt =====
-- Every run of arrivals and departures on a fresh room, against a plain list of clients.
use tnt.Base.{
  ℕ, List, [], ◌∷◌, ◌++◌, leb, if◌then◌else◌, length, ◌≡◌, refl, ◌∙◌, arith, length-take,
  length-replicate,
}
use tnt.Room.{ChatRoom, Message, create, add_client, remove_client}
use tnt.Room.Clients.{IsRoom, present, without, add_client_refines, remove_client_refines}

pub data Visit : Type 0 where
  arrive : ℕ → Visit
  depart : ℕ → Visit

abbrev pub visit : Visit → ChatRoom → ChatRoom
visit (arrive client) room = (add_client room client).0
visit (depart client) room = remove_client room client

abbrev pub run : List Visit → ChatRoom → ChatRoom
run [] room = room
run (v ∷ vs) room = run vs (visit v room)

-- The list that a room of the capacity stands for.
abbrev pub visit_list : ℕ → Visit → List ℕ → List ℕ
visit_list capacity (arrive client) present =
    if leb capacity (length present) then present else present ++ client ∷ []
visit_list capacity (depart client) present = without client present

abbrev pub run_list : ℕ → List Visit → List ℕ → List ℕ
run_list capacity [] present = present
run_list capacity (v ∷ vs) present = run_list capacity vs (visit_list capacity v present)

visit_refines :
    (v : Visit) (room : ChatRoom)
    → IsRoom room
    → IsRoom (visit v room)
      × ((visit v room).client_capacity ≡ room.client_capacity)
      × (present (visit v room) ≡ visit_list room.client_capacity v (present room))
unfolding add_client remove_client
visit_refines (arrive client) room h =
    ground (arith, add_client_refines room client h, length-take room.client_count room.clients)
visit_refines (depart client) room h = ground (arith, remove_client_refines room client h)

pub run_refines :
    (vs : List Visit) (room : ChatRoom)
    → IsRoom room
    → IsRoom (run vs room)
      × (present (run vs room) ≡ run_list room.client_capacity vs (present room))
run_refines [] room h = (h, refl)
run_refines (v ∷ vs) room h =
    let (valid, same, step) = visit_refines v room h in
    let (valid', rest) = run_refines vs (visit v room) valid in
    (valid', rest ∙ rw (same, step) refl)

-- From `room_create` on, after any arrivals and departures the array is within its capacity and
-- holds the clients of the list that appends an arriving client while there is room and drops the
-- first occurrence of a departing one.
pub run-create :
    (capacity : ℕ) (loaded : List Message) (vs : List Visit)
    → IsRoom (run vs (create capacity loaded))
      × (present (run vs (create capacity loaded)) ≡ run_list capacity vs [])
unfolding create
run-create capacity loaded vs =
    run_refines vs (create capacity loaded)
      (record { array = length-replicate capacity 0; within = omega arith })
