-- ===== src/Room/Tests.antt =====
-- The theorems on the room at concrete rooms.
use tnt.Base.{◌+◌, ◌%◌, ◌^◌, List, [], ◌∷◌, ◌++◌, ◌≡◌, refl, arith}
use tnt.Base.Int.{pos}
use tnt.Room.{ChatRoom, Message, max_messages, create, shift, find_client, remove_client}
use tnt.Room.Clients.{IsRoom, present}
use tnt.Room.Refine.{Visit, run, run_list, run-create}
use tnt.Room.History.{broadcast_all, broadcast_all_history, last}

abbrev hello : Message
hello = record { timestamp = pos 5; username = 97 ∷ []; content = 104 ∷ 105 ∷ [] }

-- Clients 1, 2 and 3 of four places.
abbrev three : ChatRoom
three = record {
  clients = 1 ∷ 2 ∷ 3 ∷ 0 ∷ [];
  client_count = 3;
  client_capacity = 4;
  messages = hello ∷ [];
  update_seq = 7;
}

three-IsRoom : IsRoom three
three-IsRoom = record { array = refl; within = omega arith }

abbrev visits : List Visit
visits = Visit.arrive 4 ∷ Visit.arrive 5 ∷ Visit.depart 4 ∷ Visit.arrive 6 ∷ []

run-create_example :
    IsRoom (run visits (create 2 [])) × (present (run visits (create 2 [])) ≡ run_list 2 visits [])
run-create_example = run-create 2 [] visits

broadcast_all_history_example :
    ((broadcast_all three (hello ∷ hello ∷ [])).messages
      ≡ last max_messages (three.messages ++ hello ∷ hello ∷ []))
    × ((broadcast_all three (hello ∷ hello ∷ [])).update_seq ≡ (7 + 2) % 2 ^ 64)
broadcast_all_history_example =
    broadcast_all_history three (hello ∷ hello ∷ []) (omega arith) (omega arith)

-- A removal in the middle moves the clients after it up.
remove_middle : (remove_client three 2).clients ≡ 1 ∷ 3 ∷ 3 ∷ 0 ∷ []
unfolding remove_client shift find_client
remove_middle = refl
