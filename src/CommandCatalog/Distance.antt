-- ===== src/CommandCatalog/Distance.antt =====
-- The table of `edit_distance` gives the least number of edits.
use tnt.Base.{
  leb, ◌||◌, ℕ, suc, ◌+◌, ◌≤◌, ◌<◌, false, List, [], ◌∷◌, ◌==◌, if◌then◌else◌, length, get_or,
  Bytes, ◌≡◌, refl, ap, ◌∙◌, ◌⊎◌, inl, inr, arith, Bool-cases, ==_iff,
}
use mathlib.Core.Path.{subst}
use mathlib.Core.List.{reverse, reverse_aux, reverse-reverse}
use tnt.CommandCatalog.{min3, next_cells, next_row, rows, first_row, edit_distance}

-- A way to edit `a` into `b`, byte by byte, with its number of insertions, deletions and
-- replacements.
pub data Edits : Bytes → Bytes → ℕ → Type 0 where
  done : Edits [] [] 0
  keep : {a b : Bytes} {n : ℕ} (x : ℕ) → Edits a b n → Edits (x ∷ a) (x ∷ b) n
  replace : {a b : Bytes} {n : ℕ} (x y : ℕ) → Edits a b n → Edits (x ∷ a) (y ∷ b) (suc n)
  insert : {a b : Bytes} {n : ℕ} (y : ℕ) → Edits a b n → Edits a (y ∷ b) (suc n)
  delete : {a b : Bytes} {n : ℕ} (x : ℕ) → Edits a b n → Edits (x ∷ a) b (suc n)

-- The distance by recursion.
abbrev cost : ℕ → ℕ → ℕ
cost x y = if x == y then 0 else 1

distance : Bytes → Bytes → ℕ
distance [] b = length b
distance (x ∷ a) [] = suc (length a)
distance (x ∷ a) (y ∷ b) =
    min3 (distance a (y ∷ b) + 1) (distance (x ∷ a) b + 1) (distance a b + cost x y)

distance-nil : (a : Bytes) → distance a [] ≡ length a
unfolding distance
distance-nil [] = refl
distance-nil (x ∷ a) = refl

min3_lem :
    (a b c : ℕ)
    → (min3 a b c ≤ a)
      × (min3 a b c ≤ b)
      × (min3 a b c ≤ c)
      × ((min3 a b c ≡ a) ⊎ ((min3 a b c ≡ b) ⊎ (min3 a b c ≡ c)))
unfolding min3
min3_lem a b c = ground arith

-- Cells of a table whose row for the prefix `a` (reversed) goes over the prefixes of `b`.
cells : Bytes → Bytes → Bytes → List ℕ
cells a past [] = []
cells a past (y ∷ b) = distance a (y ∷ past) ∷ cells a (y ∷ past) b

next_cells_lem :
    (x : ℕ) (a past b : Bytes)
    → next_cells x (distance (x ∷ a) past) (distance a past) (cells a past b) b
      ≡ cells (x ∷ a) past b
unfolding next_cells cells distance
next_cells_lem x a past [] = refl
next_cells_lem x a past (y ∷ b) =
    ap (◌∷◌ (distance (x ∷ a) (y ∷ past))) (next_cells_lem x a (y ∷ past) b)

first_row_lem : (past b : Bytes) → first_row (length past) b ≡ distance [] past ∷ cells [] past b
unfolding first_row cells distance
first_row_lem past [] = refl
first_row_lem past (y ∷ b) = ap (◌∷◌ (length past)) (first_row_lem (y ∷ past) b)

rows_lem :
    (i : ℕ) (xs a b : Bytes)
    → i ≡ suc (length a)
    → rows i xs (distance a [] ∷ cells a [] b) b
      ≡ distance (reverse_aux xs a) [] ∷ cells (reverse_aux xs a) [] b
unfolding rows next_row
rows_lem i [] a b h = refl
rows_lem i (x ∷ xs) a b h =
    let first : i ≡ distance (x ∷ a) [] = h ∙ unfold distance in refl in
    rw (first, next_cells_lem x a [] b)
      (rows_lem (suc (distance (x ∷ a) [])) xs (x ∷ a) b (ap suc (distance-nil (x ∷ a))))

last_cell :
    (a past b : Bytes)
    → get_or (distance a past ∷ cells a past b) (length b) 0 ≡ distance a (reverse_aux b past)
unfolding cells
last_cell a past [] = refl
last_cell a past (y ∷ b) = last_cell a (y ∷ past) b

insert_bound : (a b : Bytes) (y : ℕ) → distance a (y ∷ b) ≤ suc (distance a b)
unfolding distance
insert_bound [] b y = omega arith
insert_bound (x ∷ a) b y =
    omega
      (arith, min3_lem (distance a (y ∷ b) + 1) (distance (x ∷ a) b + 1) (distance a b + cost x y))

delete_bound : (a b : Bytes) (x : ℕ) → distance (x ∷ a) b ≤ suc (distance a b)
unfolding distance
delete_bound a [] x = omega (arith, distance-nil a)
delete_bound a (y ∷ b) x =
    omega
      (arith, min3_lem (distance a (y ∷ b) + 1) (distance (x ∷ a) b + 1) (distance a b + cost x y))

-- No way to edit takes fewer steps than the distance.
Edits-le : {a b : Bytes} {n : ℕ} → Edits a b n → distance a b ≤ n
unfolding distance
Edits-le done = omega arith
Edits-le (keep {a} {b} x e) = ground (
  arith,
  Edits-le e,
  min3_lem (distance a (x ∷ b) + 1) (distance (x ∷ a) b + 1) (distance a b + cost x x),
)
Edits-le (replace {a} {b} x y e) = ground (
  arith,
  Edits-le e,
  min3_lem (distance a (y ∷ b) + 1) (distance (x ∷ a) b + 1) (distance a b + cost x y),
)
Edits-le (insert {a} {b} y e) = omega (arith, Edits-le e, insert_bound a b y)
Edits-le (delete {a} {b} x e) = omega (arith, Edits-le e, delete_bound a b x)

resize : {a b : Bytes} (n : ℕ) {m : ℕ} → n ≡ m → Edits a b n → Edits a b m
resize {a} {b} n same e = subst (Edits a b) same e

keep_or_replace :
    {a b : Bytes} {n : ℕ} (x y : ℕ) → Edits a b n → Edits (x ∷ a) (y ∷ b) (n + cost x y)
keep_or_replace {a} {b} {n} x y e = elim (Bool-cases (x == y)) [
  | inl same ↦
      let eq = (==_iff x y).0 same in
      subst (λ z. Edits (x ∷ a) (z ∷ b) (n + cost x z)) eq (resize n (ground arith) (keep x e))
  | inr differ ↦ resize (suc n) (ground arith) (replace x y e)
]

-- There is a way to edit with as many steps as the distance.
Edits-distance : (a b : Bytes) → Edits a b (distance a b)
unfolding distance
Edits-distance [] [] = done
Edits-distance [] (y ∷ b) = insert y (Edits-distance [] b)
Edits-distance (x ∷ a) [] = delete x (resize (distance a []) (distance-nil a) (Edits-distance a []))
Edits-distance (x ∷ a) (y ∷ b) =
    let removed = Edits-distance a (y ∷ b) in
    let added = Edits-distance (x ∷ a) b in
    let both = Edits-distance a b in
    let (_, _, _, which) =
      min3_lem (distance a (y ∷ b) + 1) (distance (x ∷ a) b + 1) (distance a b + cost x y) in
    elim which [
      | inl first ↦ resize (suc (distance a (y ∷ b))) (omega arith) (delete x removed)
      | inr (inl second) ↦ resize (suc (distance (x ∷ a) b)) (omega arith) (insert y added)
      | inr (inr third) ↦ resize (distance a b + cost x y) (omega arith) (keep_or_replace x y both)
    ]

Edits-reverse_aux :
    {a b c d : Bytes} {n m : ℕ}
    → Edits a b n
    → Edits c d m
    → Edits (reverse_aux a c) (reverse_aux b d) (n + m)
Edits-reverse_aux {m} done f = resize m (omega arith) f
Edits-reverse_aux (keep x e) f = Edits-reverse_aux e (keep x f)
Edits-reverse_aux {m} (replace {n} x y e) f =
    resize (n + suc m) (omega arith) (Edits-reverse_aux e (replace x y f))
Edits-reverse_aux {m} (insert {n} y e) f =
    resize (n + suc m) (omega arith) (Edits-reverse_aux e (insert y f))
Edits-reverse_aux {m} (delete {n} x e) f =
    resize (n + suc m) (omega arith) (Edits-reverse_aux e (delete x f))

Edits-reverse : {a b : Bytes} {n : ℕ} → Edits a b n → Edits (reverse a) (reverse b) n
Edits-reverse {n} e = resize (n + 0) (omega arith) (Edits-reverse_aux e done)

edit_distance_lem :
    (a b : Bytes)
    → length a < 32
    → length b < 32
    → edit_distance a b ≡ distance (reverse a) (reverse b)
unfolding edit_distance
edit_distance_lem a b h k =
    let first : first_row 0 b ≡ distance [] [] ∷ cells [] [] b = first_row_lem [] b in
    let filled : rows 1 a (first_row 0 b) b
        ≡ distance (reverse_aux a []) [] ∷ cells (reverse_aux a []) [] b =
      rw first (rows_lem 1 a [] b refl) in
    let short : (leb 32 (length a) || leb 32 (length b)) ≡ false = ground arith in
    rw (short, filled) (last_cell (reverse_aux a []) [] b)

-- For words of less than 32 bytes that some edits lead from one to the other, `edit_distance` is the
-- number of steps of a way to edit, and no way takes fewer: it is the least number of insertions,
-- deletions and replacements of a byte.
pub edit_distance-least :
    {a b : Bytes} {n : ℕ}
    → Edits a b n
    → length a < 32
    → length b < 32
    → Edits a b (edit_distance a b) × (edit_distance a b ≤ n)
edit_distance-least {a} {b} e h k =
    let found = Edits-reverse (Edits-distance (reverse a) (reverse b)) in
    rw (edit_distance_lem a b h k) (
      subst (λ x. Edits x b (distance (reverse a) (reverse b))) (reverse-reverse a)
          (subst (λ y. Edits (reverse (reverse a)) y (distance (reverse a) (reverse b)))
            (reverse-reverse b) found),
      Edits-le (Edits-reverse e),
    )
