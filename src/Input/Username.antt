-- ===== src/Input/Username.antt =====
-- src/input.c: `read_username`, the first line of an interactive session. `none` is its -1: the
-- channel ended, or the user gave up. What is echoed is left out.
pub mod Accepted
use tnt.Base.{
  ℕ, zero, suc, ◌+◌, ◌-◌, Bool, true, false, not, ◌||◌, Option, none, some, List, [], ◌∷◌, ◌++◌,
  ltb, leb, ◌==◌, if◌then◌else◌, length, Bytes, codes,
}
use tnt.Utf8.{byte_length, is_valid_sequence, remove_last_char, remove_last_word, strlen, truncate}
use tnt.MessageLog.{max_username_len}
use tnt.Common.{is_valid_username}
use tnt.Input.Channel.{Read, byte, timeout, Channel, read_once}

abbrev pub anonymous : Bytes
anonymous = codes "anonymous"

-- The branch for a byte from 128 on: one read takes the rest of its sequence.
pub name_sequence : (Channel → ℕ) → Bytes → ℕ → Channel → Bytes × Channel
name_sequence available username b c =
    let len = byte_length b in
    let (rest, c') = read_once available (len - 1) c in
    if leb len 0 || ltb 4 len
    then (username, c)
    else if not (length rest == len - 1)
    then (username, c')
    else if not (is_valid_sequence (b ∷ rest) len)
    then (username, c')
    else if ltb (length username + len) (max_username_len - 1)
    then (username ++ b ∷ rest, c')
    else (username, c')

-- What one byte, that neither ends the line nor gives up, does to the name.
unfoldable pub name_key : (Channel → ℕ) → Bytes → ℕ → Channel → Bytes × Channel
name_key available username b c =
    if b == 21
    then ([], c)
    else if b == 23
    then (remove_last_word username, c)
    else if b == 127 || b == 8
    then (remove_last_char username, c)
    else if ltb b 32
    then (username, c)
    else if ltb b 128
    then (if ltb (length username) (max_username_len - 1) then username ++ b ∷ [] else username, c)
    else name_sequence available username b c

-- The loop, with a bound on its rounds. A round that times out goes on while the channel is open.
unfoldable pub name_loop : (Channel → ℕ) → ℕ → Channel → Bytes → Option (Bytes × Channel)
name_loop available zero c username = none
name_loop available (suc fuel) [] username = none
name_loop available (suc fuel) (timeout ∷ c) username = name_loop available fuel c username
name_loop available (suc fuel) (byte b ∷ c) username =
    let (username', c') = name_key available username b c in
    let next = name_loop available fuel c' username' in
    if b == 13 || b == 10 then some (username, c) else if b == 3 || b == 4 then none else next

-- The name that the client gets for what was typed; `char` is signed or not, as for the rule.
unfoldable pub choose_name : Bool → Bytes → Bytes
choose_name signed username =
    if length username == 0
    then anonymous
    else if not (is_valid_username signed username)
    then anonymous
    else if ltb 20 (strlen username)
    then truncate username 20
    else username

-- Each round takes a read at least, so one more than their number is fuel enough.
unfoldable pub read_username : (Channel → ℕ) → Bool → Channel → Option (Bytes × Channel)
read_username available signed c = elim (name_loop available (suc (length c)) c []) [
  | none ↦ none
  | some (username, c') ↦ some (choose_name signed username, c')
]
