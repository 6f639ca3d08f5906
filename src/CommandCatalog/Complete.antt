-- ===== src/CommandCatalog/Complete.antt =====
-- What `command_catalog_complete` writes.
use tnt.Base.{
  ℕ, zero, suc, ◌-◌, ◌≤◌, ◌<◌, List, [], ◌∷◌, ◌++◌, Bytes, ltb, length, take, if◌then◌else◌, ◌≡◌,
  refl, ◌∙◌, sym, arith, All, append_assoc, append-nil, length-append, take-all,
}
use mathlib.Core.Path.{subst}
use tnt.CommandCatalog.{
  Entry, entries, has_prefix, common, Completion, complete_name, complete_entries, complete,
}

-- The names of the commands that the prefix fits.
unfoldable pub candidates : Bytes → List Entry → List Bytes
candidates prefix [] = []
candidates prefix (e ∷ es) =
    if has_prefix e.canonical prefix
    then e.canonical ∷ candidates prefix es
    else candidates prefix es

complete_names : ℕ → ℕ → List Bytes → Completion → Completion
complete_names max lcp_size [] c = c
complete_names max lcp_size (name ∷ names) c =
    complete_names max lcp_size names (complete_name max lcp_size name c)

complete_entries_lem :
    (prefix : Bytes) (max lcp_size : ℕ) (es : List Entry) (c : Completion)
    → complete_entries prefix max lcp_size es c
      ≡ complete_names max lcp_size (candidates prefix es) c
unfolding complete_entries complete_names candidates
complete_entries_lem prefix max lcp_size [] c = refl
complete_entries_lem prefix max lcp_size (e ∷ es) c = ground (
  arith,
  complete_entries_lem prefix max lcp_size es c,
  complete_entries_lem prefix max lcp_size es (complete_name max lcp_size e.canonical c),
)

take-append_end :
    (n : ℕ) (seen : List Bytes) (name : Bytes)
    → take n (seen ++ name ∷ [])
      ≡ (if ltb (length seen) n then take n seen ++ name ∷ [] else take n seen)
take-append_end zero [] name = refl
take-append_end zero (x ∷ seen) name = ground arith
take-append_end (suc n) [] name =
    rw (take-all n (let none_left : List Bytes = [] in none_left) (omega arith)) (ground arith)
take-append_end (suc n) (x ∷ seen) name = ground (arith, take-append_end n seen name)

complete_names_all :
    (max lcp_size : ℕ) (seen names : List Bytes) (c : Completion)
    → c.out ≡ take max seen
    → c.count ≡ length seen
    → let r = complete_names max lcp_size names c in
      (r.out ≡ take max (seen ++ names)) × (r.count ≡ length (seen ++ names))
unfolding complete_names complete_name
complete_names_all max lcp_size seen [] c h k = ground (arith, append-nil seen)
complete_names_all max lcp_size seen (name ∷ names) c h k = ground (
  arith,
  take-append_end max seen name,
  length-append seen (name ∷ []),
  append_assoc seen (name ∷ []) names,
  complete_names_all max lcp_size (seen ++ name ∷ []) names (complete_name max lcp_size name c),
)

-- Completion counts the commands whose name starts with the prefix, upper and lower case alike, and
-- lists the first `max` of them in the order of the table.
pub complete-candidates :
    (prefix : Bytes) (max lcp_size : ℕ)
    → ((complete prefix max lcp_size).count ≡ length (candidates prefix entries))
      × ((complete prefix max lcp_size).out ≡ take max (candidates prefix entries))
unfolding complete
complete-candidates prefix max lcp_size =
    let start : Completion = record { out = []; lcp = []; count = 0 } in
    let (listed, counted) =
      complete_names_all max lcp_size [] (candidates prefix entries) start
        (sym (take-all max [] (omega arith))) refl in
    rw (complete_entries_lem prefix max lcp_size entries start) (counted, listed)

-- `p` stands at the start of the text.
abbrev pub Starts : Bytes → Bytes → Type 0
Starts [] s = Unit {0}
Starts (c ∷ p) [] = ⊥
Starts (c ∷ p) (b ∷ s) = (c ≡ b) × Starts p s

Starts-trans : (p q s : Bytes) → Starts p q → Starts q s → Starts p s
Starts-trans [] q s h k = tt
Starts-trans (c ∷ p) [] s h k = elim h [ ]
Starts-trans (c ∷ p) (b ∷ q) [] h k = elim k [ ]
Starts-trans (c ∷ p) (b ∷ q) (a ∷ s) h k = (h.0 ∙ k.0, Starts-trans p q s h.1 k.1)

Starts-refl : (s : Bytes) → Starts s s
Starts-refl [] = tt
Starts-refl (x ∷ s) = (refl, Starts-refl s)

common-Starts : (a b : Bytes) → Starts (common a b) a × Starts (common a b) b
unfolding common
common-Starts [] b = (tt, tt)
common-Starts (x ∷ a) [] = (tt, tt)
common-Starts (x ∷ a) (y ∷ b) = ground (arith, common-Starts a b)

common_greatest : (p a b : Bytes) → Starts p a → Starts p b → Starts p (common a b)
unfolding common
common_greatest [] a b h k = tt
common_greatest (c ∷ p) [] b h k = elim h [ ]
common_greatest (c ∷ p) (x ∷ a) [] h k = elim k [ ]
common_greatest (c ∷ p) (x ∷ a) (y ∷ b) h k = ground (arith, common_greatest p a b h.1 k.1)

take-Starts : (n : ℕ) (s : Bytes) → Starts (take n s) s
take-Starts zero s = tt
take-Starts (suc n) [] = tt
take-Starts (suc n) (x ∷ s) = (refl, take-Starts n s)

take_greatest : (n : ℕ) (p s : Bytes) → length p ≤ n → Starts p s → Starts p (take n s)
take_greatest n [] s h k = tt
take_greatest n (c ∷ p) [] h k = elim k [ ]
take_greatest zero (c ∷ p) (x ∷ s) h k = absurd (omega arith)
take_greatest (suc n) (c ∷ p) (x ∷ s) h k = (k.0, take_greatest n p s (omega arith) k.1)

-- From the second name on.
next_lcp :
    (max lcp_size : ℕ) (name : Bytes) (c : Completion)
    → 0 < lcp_size
    → 0 < c.count
    → ((complete_name max lcp_size name c).lcp ≡ common c.lcp name)
      × (0 < (complete_name max lcp_size name c).count)
unfolding complete_name
next_lcp max lcp_size name c h k = ground arith

complete_names_greatest :
    (max lcp_size : ℕ) (p : Bytes) (names : List Bytes) (c : Completion)
    → 0 < lcp_size
    → 0 < c.count
    → Starts p c.lcp
    → All (Starts p) names
    → Starts p (complete_names max lcp_size names c).lcp
unfolding complete_names
complete_names_greatest max lcp_size p [] c h k first all = first
complete_names_greatest max lcp_size p (name ∷ names) c h k first all =
    let (cut, more) = next_lcp max lcp_size name c h k in
    complete_names_greatest max lcp_size p names (complete_name max lcp_size name c) h more
      (rw cut (common_greatest p c.lcp name first all.0)) all.1

complete_names_common :
    (max lcp_size : ℕ) (names : List Bytes) (c : Completion)
    → 0 < lcp_size
    → 0 < c.count
    → let r = complete_names max lcp_size names c in Starts r.lcp c.lcp × All (Starts r.lcp) names
unfolding complete_names
complete_names_common max lcp_size [] c h k = (Starts-refl c.lcp, tt)
complete_names_common max lcp_size (name ∷ names) c h k =
    let (cut, more) = next_lcp max lcp_size name c h k in
    let r = complete_names max lcp_size names (complete_name max lcp_size name c) in
    let (first, later) =
      complete_names_common max lcp_size names (complete_name max lcp_size name c) h more in
    let (old, new) = common-Starts c.lcp name in
    let first' = subst (Starts r.lcp) cut first in
    (
      Starts-trans r.lcp (common c.lcp name) c.lcp first' old,
      (Starts-trans r.lcp (common c.lcp name) name first' new, later),
    )

-- The first name.
first_lcp :
    (max lcp_size : ℕ) (name : Bytes) (c : Completion)
    → 0 < lcp_size
    → c.count ≡ 0
    → ((complete_name max lcp_size name c).lcp ≡ take (lcp_size - 1) name)
      × (0 < (complete_name max lcp_size name c).count)
unfolding complete_name
first_lcp max lcp_size name c h k = ground arith

complete_names_lcp :
    (max lcp_size : ℕ) (p : Bytes) (names : List Bytes) (c : Completion)
    → 0 < lcp_size
    → c.count ≡ 0
    → c.lcp ≡ []
    → let r = complete_names max lcp_size names c in
      All (Starts r.lcp) names
      × ((0 < length names) → (length p < lcp_size) → All (Starts p) names → Starts p r.lcp)
unfolding complete_names
complete_names_lcp max lcp_size p [] c h k e = (tt, λ nonempty. absurd (omega arith))
complete_names_lcp max lcp_size p (name ∷ names) c h k e =
    let (cut, more) = first_lcp max lcp_size name c h k in
    let c' = complete_name max lcp_size name c in
    let r = complete_names max lcp_size names c' in
    let (first, later) = complete_names_common max lcp_size names c' h more in
    (
      (
        Starts-trans r.lcp (take (lcp_size - 1) name) name (subst (Starts r.lcp) cut first)
            (take-Starts (lcp_size - 1) name),
        later,
      ),
      λ nonempty short all.
          complete_names_greatest max lcp_size p names c' h more
            (rw cut (take_greatest (lcp_size - 1) p name (omega arith) all.0)) all.1,
    )

-- With a buffer of some size for it, `lcp` stands at the start of every command name that the prefix
-- fits, and a text that stands at the start of all of them and fits the buffer, if there are any,
-- stands at the start of `lcp`: it is their longest common prefix.
pub complete-lcp :
    (prefix : Bytes) (max lcp_size : ℕ) (p : Bytes)
    → 0 < lcp_size
    → length p < lcp_size
    → 0 < length (candidates prefix entries)
    → All (Starts p) (candidates prefix entries)
    → let lcp = (complete prefix max lcp_size).lcp in
      All (Starts lcp) (candidates prefix entries) × Starts p lcp
unfolding complete
complete-lcp prefix max lcp_size p h short some_fit all =
    let start : Completion = record { out = []; lcp = []; count = 0 } in
    let (starts, greatest) =
      complete_names_lcp max lcp_size p (candidates prefix entries) start h refl refl in
    rw (complete_entries_lem prefix max lcp_size entries start)
      (starts, greatest some_fit short all)
