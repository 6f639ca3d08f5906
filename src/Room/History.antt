-- ===== src/Room/History.antt =====
-- The room's history as a sliding window over everything that was ever broadcast.
use Prim.Native.Nat.{min}
use mathlib.Core.Path.{subst}
use tnt.Base.{
  ℕ, zero, suc, ◌+◌, ◌-◌, ◌%◌, ◌^◌, ◌≤◌, ◌<◌, List, [], ◌∷◌, ◌++◌, none, some, leb, length,
  get_elem?, drop, ◌≡◌, refl, sym, ap, ◌∙◌, arith, inl, inr, Bool-cases, length-append, length-drop,
  take-all, drop-add, append-nil, append_assoc, leb→le, not-leb→lt, get_elem?-drop,
  get_elem?-append_left, get_elem?-append_end, get_elem?_beyond,
}
use tnt.Base.Int.{pos}
use tnt.Room.{
  ChatRoom, Message, max_messages, add_message, broadcast, get_message, get_message_count,
}

-- The last `n` elements, or all where there are fewer.
abbrev pub last {ℓ} : {A : Type ℓ} → ℕ → List A → List A
last n xs = drop (length xs - n) xs

module _ {ℓ} {A : Type ℓ} where
  pub drop-append : (k : ℕ) (xs ys : List A) → k ≤ length xs → drop k (xs ++ ys) ≡ drop k xs ++ ys
  drop-append zero xs ys h = refl
  drop-append (suc k) [] ys h = absurd (omega arith)
  drop-append (suc k) (x ∷ xs) ys h = drop-append k xs ys (omega arith)

  -- A window that slides on forgets nothing the whole would still hold.
  pub last-append : (n : ℕ) (xs ys : List A) → last n (last n xs ++ ys) ≡ last n (xs ++ ys)
  last-append n xs ys =
      let k = length xs - n in
      let joined = drop-append k xs ys (omega arith) in
      let count : k + (length (drop k xs ++ ys) - n) ≡ length (xs ++ ys) - n =
        omega (arith, length-append (drop k xs) ys, length-append xs ys, length-drop k xs) in
      ap (drop (length (drop k xs ++ ys) - n)) (sym joined)
      ∙ sym (drop-add k (length (drop k xs ++ ys) - n) (xs ++ ys))
      ∙ ap (λ m. drop m (xs ++ ys)) count

add_message_lem :
    (room : ChatRoom) (msg : Message)
    → length room.messages ≤ max_messages
    → (add_message room msg).messages ≡ last max_messages (room.messages ++ msg ∷ [])
unfolding add_message
add_message_lem room msg h =
    let whole = length-append room.messages (msg ∷ []) in
    let kept =
      take-all (max_messages - 1) (drop 1 room.messages)
        (omega (arith, length-drop 1 room.messages)) in
    elim (Bool-cases (leb max_messages (length room.messages))) [
      | inl full ↦
          let at_max : length room.messages ≡ max_messages =
            omega (arith, leb→le max_messages (length room.messages) full) in
          let one : length (room.messages ++ msg ∷ []) - max_messages ≡ 1 = omega arith in
          rw (full, kept, one) (sym (drop-append 1 room.messages (msg ∷ []) (omega arith)))
      | inr free ↦
          let none_out : length (room.messages ++ msg ∷ []) - max_messages ≡ 0 =
            omega (arith, not-leb→lt max_messages (length room.messages) free) in
          rw (free, none_out) refl
    ]

-- `room_broadcast` for one message after the other.
abbrev pub broadcast_all : ChatRoom → List Message → ChatRoom
broadcast_all room [] = room
broadcast_all room (msg ∷ msgs) = broadcast_all (broadcast room msg) msgs

broadcast_lem :
    (room : ChatRoom) (msg : Message)
    → length room.messages ≤ max_messages
    → ((broadcast room msg).messages ≡ last max_messages (room.messages ++ msg ∷ []))
      × ((broadcast room msg).update_seq ≡ (room.update_seq + 1) % 2 ^ 64)
unfolding broadcast add_message
broadcast_lem room msg h = (add_message_lem room msg h, refl)

pub length-last {ℓ} : {A : Type ℓ} (n : ℕ) (xs : List A) → length (last n xs) ≡ min n (length xs)
length-last n xs = omega (arith, length-drop (length xs - n) xs)

pub last_all {ℓ} : {A : Type ℓ} (n : ℕ) (xs : List A) → length xs ≤ n → last n xs ≡ xs
last_all n xs h = let zero_out : length xs - n ≡ 0 = omega arith in ap (λ k. drop k xs) zero_out

-- From at most 100 messages on, after any number of broadcasts the history is the last 100 of the
-- messages the room began with followed by the broadcast ones, and `update_seq` has advanced by
-- one for each broadcast, as a 64-bit counter.
pub broadcast_all_history :
    (room : ChatRoom) (msgs : List Message)
    → length room.messages ≤ max_messages
    → room.update_seq < 2 ^ 64
    → ((broadcast_all room msgs).messages ≡ last max_messages (room.messages ++ msgs))
      × ((broadcast_all room msgs).update_seq ≡ (room.update_seq + length msgs) % 2 ^ 64)
broadcast_all_history room [] h k =
    (rw append-nil (sym (last_all max_messages room.messages h)), omega arith)
broadcast_all_history room (msg ∷ msgs) h k =
    let room' = broadcast room msg in
    let (history, seq) = broadcast_lem room msg h in
    let within : length room'.messages ≤ max_messages =
      subst (λ ms. length ms ≤ max_messages) (sym history)
        (omega (arith, length-last max_messages (room.messages ++ msg ∷ []))) in
    let (rest, counted) = broadcast_all_history room' msgs within (omega arith) in
    (
      rest
          ∙ ap (λ ms. last max_messages (ms ++ msgs)) history
          ∙ last-append max_messages (room.messages ++ msg ∷ []) msgs
          ∙ ap (last max_messages) (append_assoc room.messages (msg ∷ []) msgs),
      omega (arith, counted, seq),
    )

-- In a history of at most 100 messages, after a broadcast the last message is the new one, the
-- others have kept their places, or moved one to the front where the history was full, and an
-- index from the count on is not answered.
pub get_message-broadcast :
    (room : ChatRoom) (msg : Message)
    → length room.messages ≤ max_messages
    → let room' = broadcast room msg in
      let count = get_message_count room' in
      (count ≡ min (get_message_count room + 1) max_messages)
      × (get_message room' (pos (count - 1)) ≡ some msg)
      × ((i : ℕ)
          → i + 1 < count
          → get_message room' (pos i)
            ≡ get_message room (pos (i + (get_message_count room + 1 - count))))
      × ((i : ℕ) → count ≤ i → get_message room' (pos i) ≡ none)
unfolding get_message get_message_count
get_message-broadcast room msg h =
    let whole = room.messages ++ msg ∷ [] in
    let total = length-append room.messages (msg ∷ []) in
    let k = length whole - max_messages in
    let history = (broadcast_lem room msg h).0 in
    let counted : length (broadcast room msg).messages ≡ length whole - k =
      ap length history ∙ length-drop k whole in
    let at : (i : ℕ) → get_elem? (broadcast room msg).messages i ≡ get_elem? whole (k + i) =
      λ i. ap (λ ms. get_elem? ms i) history ∙ get_elem?-drop k i whole in
    let ms = (broadcast room msg).messages in
    let end : k + (length ms - 1) ≡ length room.messages = omega (arith, counted, total) in
    let before : (i : ℕ) → k + i ≡ i + (length room.messages + 1 - length ms) =
      λ i. omega (arith, counted, total) in
    (
      omega (arith, counted, total),
      at (length ms - 1) ∙ ap (get_elem? whole) end ∙ get_elem?-append_end room.messages msg,
      λ i below.
          (at i
            ∙ get_elem?-append_left room.messages (msg ∷ []) (k + i) (omega (arith, counted, total))
            ∙ ap (get_elem? room.messages) (before i)),
      λ i beyond. get_elem?_beyond ms i beyond,
    )
