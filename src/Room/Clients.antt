-- ===== src/Room/Clients.antt =====
-- The array of clients refines a list: adding appends, removing takes the first occurrence out.
use Prim.Native.Nat.add
use tnt.Base.{
  ℕ, zero, suc, ◌+◌, ◌-◌, ◌≤◌, ◌<◌, true, List, [], ◌∷◌, ◌++◌, Option, none, some, ◌==◌,
  if◌then◌else◌, length, get_or, set, take, ◌≡◌, refl, ap, ◌∙◌, arith, inl, inr, ◌⊎◌, Option-cases,
  length-set, length-take,
}
use tnt.Room.{ChatRoom, add_client, shift, find_client, remove_client}

-- The clients in the room, in the order of their arrival.
abbrev pub present : ChatRoom → List ℕ
present room = take room.client_count room.clients

pub record IsRoom (room : ChatRoom) : Type 0 where
  pub array : length room.clients ≡ room.client_capacity
  pub within : room.client_count ≤ room.client_capacity

-- A list without its first occurrence of `x`.
abbrev pub without : ℕ → List ℕ → List ℕ
without x [] = []
without x (y ∷ ys) = if y == x then ys else y ∷ without x ys

take-set_end :
    (n x : ℕ) (xs : List ℕ) → n < length xs → take (n + 1) (set xs n x) ≡ take n xs ++ x ∷ []
take-set_end n x [] h = absurd (omega arith)
take-set_end zero x (y ∷ xs) h = refl
take-set_end (suc n) x (y ∷ xs) h = rw add.suc (ap (◌∷◌ y) (take-set_end n x xs (omega arith)))

-- In a room within its capacity, a client that arrives comes to the end of the list, or nothing
-- changes and the room is full; the room stays within its capacity and the history is kept.
pub add_client_refines :
    (room : ChatRoom) (client : ℕ)
    → IsRoom room
    → let (room', added) = add_client room client in
      IsRoom room'
      × (room'.messages ≡ room.messages)
      × (present room' ≡ (if added then present room ++ client ∷ [] else present room))
      × ((added ≡ true) ⊎ (length (present room) ≡ room.client_capacity))
unfolding add_client
add_client_refines room client v = ground (
  arith,
  length-set room.clients room.client_count client,
  take-set_end room.client_count client room.clients,
  length-take room.client_count room.clients,
)

shift-cons : (rounds j x : ℕ) (xs : List ℕ) → shift rounds (suc j) (x ∷ xs) ≡ x ∷ shift rounds j xs
unfolding shift
shift-cons zero j x xs = refl
shift-cons (suc r) j x xs = shift-cons r (suc j) x (set xs j (get_or xs (suc j) 0))

length-shift : (rounds j : ℕ) (xs : List ℕ) → length (shift rounds j xs) ≡ length xs
unfolding shift
length-shift zero j xs = refl
length-shift (suc r) j xs =
    length-shift r (suc j) (set xs j (get_or xs (suc j) 0)) ∙ length-set xs j (get_or xs (suc j) 0)

-- The shift from the front drops the first element.
take-shift : (n x : ℕ) (xs : List ℕ) → n ≤ length xs → take n (shift n 0 (x ∷ xs)) ≡ take n xs
unfolding shift
take-shift zero x xs h = refl
take-shift (suc n) x [] h = absurd (omega arith)
take-shift (suc n) x (y ∷ ys) h =
    rw (shift-cons n 0 y (y ∷ ys)) (ap (◌∷◌ y) (take-shift n y ys (omega arith)))

find_client_bound :
    (rounds i : ℕ) (xs : List ℕ) (client k : ℕ)
    → find_client rounds i xs client ≡ some k
    → (i ≤ k) × (k < i + rounds)
unfolding find_client
find_client_bound zero i xs client k h = cc
find_client_bound (suc r) i xs client k h = ground (arith, find_client_bound r (suc i) xs client k)

find_client-cons :
    (rounds i x : ℕ) (xs : List ℕ) (client : ℕ)
    → find_client rounds (suc i) (x ∷ xs) client
      ≡ elim (find_client rounds i xs client) [ none ↦ none | some k ↦ some (suc k) ]
unfolding find_client
find_client-cons zero i x xs client = refl
find_client-cons (suc r) i x xs client = ground (arith, find_client-cons r (suc i) x xs client)

removed : Option ℕ → ℕ → List ℕ → List ℕ
removed none n xs = take n xs
removed (some i) n xs = take (n - 1) (shift (n - 1 - i) i xs)

removed-cons :
    (o : Option ℕ) (n x : ℕ) (xs : List ℕ)
    → ((k : ℕ) → o ≡ some k → k < n)
    → removed (elim o [ none ↦ none | some k ↦ some (suc k) ]) (suc n) (x ∷ xs) ≡ x ∷ removed o n xs
unfolding removed
removed-cons none n x xs h = refl
removed-cons (some k) zero x xs h = absurd (omega (arith, h k refl))
removed-cons (some k) (suc n) x xs h =
    let e : suc n - suc k ≡ n - k = omega arith in
    let f : suc (suc n) - 1 ≡ suc n = omega arith in
    let g : suc n - 1 ≡ n = omega arith in simp (f, g, e, shift-cons (n - k) k x xs)

removed-find_client :
    (n : ℕ) (xs : List ℕ) (client : ℕ)
    → n ≤ length xs
    → removed (find_client n 0 xs client) n xs ≡ without client (take n xs)
unfolding find_client removed
removed-find_client zero xs client h = refl
removed-find_client (suc n) [] client h = absurd (omega arith)
removed-find_client (suc n) (x ∷ xs) client h =
    let rest = removed-find_client n xs client (omega arith) in
    let tail =
      removed-cons (find_client n 0 xs client) n x xs
        (λ k e. omega (arith, find_client_bound n 0 xs client k e)) in
    ground (arith, rest, tail, find_client-cons n 0 x xs client, take-shift n x xs)

-- In a room within its capacity, the first occurrence of a departing client leaves, the others keep
-- their order, and a client that is not there changes nothing; the room stays within its capacity
-- and the history is kept.
pub remove_client_refines :
    (room : ChatRoom) (client : ℕ)
    → IsRoom room
    → let room' = remove_client room client in
      IsRoom room'
      × (present room' ≡ without client (present room))
      × (room'.messages ≡ room.messages)
unfolding remove_client removed
remove_client_refines room client v =
    let left =
      removed-find_client room.client_count room.clients client
        (omega (arith, v.array, v.within)) in
    elim (Option-cases (find_client room.client_count 0 room.clients client)) [
      | inl none_h ↦ ground (arith, left)
      | inr (i, at_i) ↦
          ground (arith, left, length-shift (room.client_count - 1 - i) i room.clients)
    ]
