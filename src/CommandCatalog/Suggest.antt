-- ===== src/CommandCatalog/Suggest.antt =====
-- What `command_catalog_suggest` proposes.
use tnt.Base.{
  ℕ, ◌≤◌, ◌<◌, List, [], ◌∷◌, Bytes, none, some, ltb, leb, length, ◌==◌, if◌then◌else◌, Bool-cases,
  ◌∙◌, sym, ap, ◌≡◌, refl, ◌⊎◌, inl, inr, arith,
}
use mathlib.Core.Path.{subst}
use tnt.CommandCatalog.{
  Entry, entries, Best, edit_distance, suggest_names, suggest_entries, suggest,
}
use tnt.CommandCatalog.Distance.{Edits, edit_distance-least}
use tnt.CommandCatalog.Names.{IsIn, Names, Names-short}

-- A result is the best so far, or the distance to a name of the command that it proposes.
suggest_names_found :
    (typed canonical : Bytes) (names : List Bytes) (best : Best)
    → let r = suggest_names typed canonical names best in
      (r ≡ best)
      ⊎ ((name : Bytes) × IsIn name names × (r ≡ (some canonical, edit_distance typed name)))
unfolding suggest_names
suggest_names_found typed canonical [] best = inl refl
suggest_names_found typed canonical (x ∷ names) (best, best_distance) =
    let d = edit_distance typed x in
    let next : Best = if ltb d best_distance then (some canonical, d) else (best, best_distance) in
    elim (suggest_names_found typed canonical names next) [
      | inr (name, later, found) ↦ inr (name, inr later, found)
      | inl same ↦ elim (Bool-cases (ltb d best_distance)) [
        | inl less ↦ inr (x, inl refl, same ∙ rw less refl)
        | inr kept ↦ inl (same ∙ rw kept refl)
      ]
    ]

suggest_names_least :
    (typed canonical : Bytes) (names : List Bytes) (best : Best)
    → ((suggest_names typed canonical names best).1 ≤ best.1)
unfolding suggest_names
suggest_names_least typed canonical [] best = omega arith
suggest_names_least typed canonical (x ∷ names) (best, best_distance) =
    let d = edit_distance typed x in
    let next : Best = if ltb d best_distance then (some canonical, d) else (best, best_distance) in
    ground (arith, suggest_names_least typed canonical names next)

suggest_names_beats :
    (typed canonical : Bytes) (names : List Bytes) (best : Best) (name : Bytes)
    → IsIn name names
    → (suggest_names typed canonical names best).1 ≤ edit_distance typed name
unfolding suggest_names
suggest_names_beats typed canonical [] best name named = elim named [ ]
suggest_names_beats typed canonical (x ∷ names) (best, best_distance) name (inl same) =
    let d = edit_distance typed x in
    let next : Best = if ltb d best_distance then (some canonical, d) else (best, best_distance) in
    ground (arith, suggest_names_least typed canonical names next)
suggest_names_beats typed canonical (x ∷ names) (best, best_distance) name (inr later) =
    let d = edit_distance typed x in
    let next : Best = if ltb d best_distance then (some canonical, d) else (best, best_distance) in
    suggest_names_beats typed canonical names next name later

suggest_entries_found :
    (typed : Bytes) (es : List Entry) (best : Best)
    → let r = suggest_entries typed es best in
      (r ≡ best)
      ⊎ ((canonical name : Bytes) × Names es canonical name
          × (r ≡ (some canonical, edit_distance typed name)))
unfolding suggest_entries
suggest_entries_found typed [] best = inl refl
suggest_entries_found typed (e ∷ es) best =
    let next = suggest_names typed e.canonical e.names best in
    elim (suggest_entries_found typed es next) [
      | inr (canonical, name, later, found) ↦ inr (canonical, name, inr later, found)
      | inl same ↦ elim (suggest_names_found typed e.canonical e.names best) [
        | inl kept ↦ inl (same ∙ kept)
        | inr (name, named, found) ↦ inr (e.canonical, name, inl (refl, named), same ∙ found)
      ]
    ]

suggest_entries_least :
    (typed : Bytes) (es : List Entry) (best : Best) → (suggest_entries typed es best).1 ≤ best.1
unfolding suggest_entries
suggest_entries_least typed [] best = omega arith
suggest_entries_least typed (e ∷ es) best = omega (
  arith,
  suggest_names_least typed e.canonical e.names best,
  suggest_entries_least typed es (suggest_names typed e.canonical e.names best),
)

suggest_entries_beats :
    (typed : Bytes) (es : List Entry) (best : Best) (canonical name : Bytes)
    → Names es canonical name
    → (suggest_entries typed es best).1 ≤ edit_distance typed name
unfolding suggest_entries
suggest_entries_beats typed [] best canonical name named = elim named [ ]
suggest_entries_beats typed (e ∷ es) best canonical name (inl here) = omega (
  arith,
  suggest_names_beats typed e.canonical e.names best name here.1,
  suggest_entries_least typed es (suggest_names typed e.canonical e.names best),
)
suggest_entries_beats typed (e ∷ es) best canonical name (inr later) =
    suggest_entries_beats typed es (suggest_names typed e.canonical e.names best) canonical name
      later

best_of : Bytes → Best
best_of typed = suggest_entries typed entries (none, 99)

suggest_lem :
    (typed : Bytes)
    → suggest typed ≡ (
        if length typed == 0
        then none
        else if leb (best_of typed).1 2
        then (best_of typed).0
        else none)
unfolding suggest best_of
suggest_lem typed = refl

best_of_found :
    (typed : Bytes)
    → ((best_of typed).1 ≡ 99)
      ⊎ ((canonical name : Bytes) × Names entries canonical name
          × ((best_of typed).0 ≡ some canonical)
          × ((best_of typed).1 ≡ edit_distance typed name))
unfolding best_of
best_of_found typed = elim (suggest_entries_found typed entries (none, 99)) [
  | inl same ↦ inl (ap (λ (r : Best). r.1) same)
  | inr (canonical, name, named, found) ↦
      inr (canonical, name, named, ap (λ (r : Best). r.0) found, ap (λ (r : Best). r.1) found)
]

best_of_beats :
    (typed canonical name : Bytes)
    → Names entries canonical name
    → (best_of typed).1 ≤ edit_distance typed name
unfolding best_of
best_of_beats typed canonical name named =
    suggest_entries_beats typed entries (none, 99) canonical name named

suggest_taken :
    (typed canonical : Bytes)
    → suggest typed ≡ some canonical
    → (0 < length typed) × ((best_of typed).1 ≤ 2) × ((best_of typed).0 ≡ some canonical)
suggest_taken typed canonical suggested = ground (arith, suggest_lem typed)

some_inj : (a b : Bytes) → some a ≡ some b → a ≡ b
some_inj a b same = cc

-- A suggestion is the command of a name that at most two edits lead to.
pub suggest-within_two :
    (typed canonical : Bytes)
    → suggest typed ≡ some canonical
    → (0 < length typed)
      × ((name : Bytes) × Names entries canonical name × (edit_distance typed name ≤ 2))
suggest-within_two typed canonical suggested =
    let (nonempty, near, taken) = suggest_taken typed canonical suggested in
    elim (best_of_found typed) [
      | inl far ↦ absurd (omega arith)
      | inr (canonical', name, named, found, distance) ↦
          let same = some_inj canonical' canonical (sym found ∙ taken) in
          (nonempty, (name, subst (λ (c : Bytes). Names entries c name) same named, omega arith))
    ]

-- If at most two edits lead from what was typed to some name of a command, there is a suggestion:
-- the command of a name that is no further away than that one.
pub suggest-closest :
    {typed name : Bytes} {n : ℕ} (canonical : Bytes)
    → Names entries canonical name
    → Edits typed name n
    → n ≤ 2
    → 0 < length typed
    → length typed < 32
    → (canonical' name' : Bytes) × Names entries canonical' name'
      × (suggest typed ≡ some canonical')
      × (edit_distance typed name' ≤ n)
suggest-closest {typed} {name} {n} canonical named edits near nonempty short =
    let (_, bound) = edit_distance-least edits short (Names-short canonical name named) in
    let beats = best_of_beats typed canonical name named in
    elim (best_of_found typed) [
      | inl far ↦ absurd (omega arith)
      | inr (canonical', name', named', found, distance) ↦
          (canonical', name', named', ground (arith, suggest_lem typed), omega arith)
    ]
