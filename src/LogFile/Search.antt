-- ===== src/LogFile/Search.antt =====
-- src/message.c: the search keeps the last hits.
use mathlib.Core.Path.{subst}
use tnt.Base.{
  ℕ, ◌-◌, ◌≤◌, ◌||◌, Bool, false, List, [], ◌∷◌, ◌++◌, append_assoc, append-nil, ltb, ◌==◌,
  if◌then◌else◌, length, take-all, drop, length-append, length-drop, Bytes, ◌≡◌, sym, ap, ◌∙◌,
  arith, inl, inr, Bool-cases, ltb→lt, not-ltb→le,
}
use tnt.Room.{Message}
use tnt.Room.History.{last, drop-append, last-append, last_all, length-last}
use tnt.LogFile.{search_add, matches, search_loop, search}

abbrev pub filter {ℓ} : {A : Type ℓ} → (A → Bool) → List A → List A
filter keep [] = []
filter keep (x ∷ xs) = if keep x then x ∷ filter keep xs else filter keep xs

search_add_lem :
    (max : ℕ) (res : List Message) (m : Message)
    → 1 ≤ max
    → length res ≤ max
    → search_add max res m ≡ last max (res ++ m ∷ [])
unfolding search_add
search_add_lem max res m h k =
    let whole = length-append res (m ∷ []) in
    elim (Bool-cases (ltb (length res) max)) [
      | inl free ↦
          rw free (
            sym (last_all max (res ++ m ∷ []) (omega (arith, whole, ltb→lt (length res) max free))))
      | inr full ↦
          let at_max = not-ltb→le (length res) max full in
          let one : length (res ++ m ∷ []) - max ≡ 1 = omega arith in
          let kept = take-all (max - 1) (drop 1 res) (omega (arith, length-drop 1 res)) in
          rw (full, one, kept) (sym (drop-append 1 res (m ∷ []) (omega arith)))
    ]

module _ (strcasestr : Bytes → Bytes → Bool) (query : Bytes) (max : ℕ) where
  hits : List Message → List Message
  hits = filter (λ m. strcasestr m.username query || strcasestr m.content query)

  matches-hit :
      (m : Message)
      → matches strcasestr query m ≡ (strcasestr m.username query || strcasestr m.content query)
  unfolding matches
  matches-hit m = ground arith

  search_loop_lem :
      (res ms : List Message)
      → 1 ≤ max
      → length res ≤ max
      → search_loop strcasestr query max res ms ≡ last max (res ++ hits ms)
  unfolding search_loop hits
  search_loop_lem res [] h k = sym (ap (last max) (append-nil res) ∙ last_all max res k)
  search_loop_lem res (m ∷ ms) h k = elim (Bool-cases (matches strcasestr query m)) [
    | inl hit ↦
        let found = sym (matches-hit m) ∙ hit in
        let added = search_add_lem max res m h k in
        let within : length (search_add max res m) ≤ max =
          subst (λ r. length r ≤ max) (sym added)
            (omega (arith, length-last max (res ++ m ∷ []))) in
        rw (search_loop, hit, found)
          (search_loop_lem (search_add max res m) ms h within
            ∙ ap (λ r. last max (r ++ hits ms)) added
            ∙ last-append max (res ++ m ∷ []) (hits ms)
            ∙ ap (last max) (append_assoc res (m ∷ []) (hits ms)))
    | inr miss ↦ rw (search_loop, miss, sym (matches-hit m) ∙ miss) (search_loop_lem res ms h k)
  ]

  -- For a query that is not empty and room for at least one result, the search gives the last `max`
  -- of the records in whose user name or in whose content `strcasestr` finds the query, in their
  -- order in the log.
  pub search_lem :
      (ms : List Message)
      → 1 ≤ max
      → 1 ≤ length query
      → search strcasestr query max ms
        ≡ last max (filter (λ m. strcasestr m.username query || strcasestr m.content query) ms)
  unfolding search hits
  search_lem ms h q =
      let asked : (length query == 0) ≡ false = ground arith in
      rw asked (search_loop_lem [] ms h (omega arith))
