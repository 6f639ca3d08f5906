-- ===== src/CommandCatalog/Names.antt =====
-- The names of the table, as a predicate.
use tnt.Base.{◌<◌, List, [], ◌∷◌, Bytes, length, ◌≡◌, ◌⊎◌, inl, inr, arith, All}
use tnt.CommandCatalog.{Entry, entries}

abbrev pub IsIn : Bytes → List Bytes → Type 0
IsIn name [] = ⊥
IsIn name (x ∷ names) = (name ≡ x) ⊎ IsIn name names

-- `name` is a name or an alias of the command `canonical`.
abbrev pub Names : List Entry → Bytes → Bytes → Type 0
Names [] canonical name = ⊥
Names (e ∷ es) canonical name =
    ((e.canonical ≡ canonical) × IsIn name e.names) ⊎ Names es canonical name

abbrev pub AllNames : (Bytes → Type 0) → List Entry → Type 0
AllNames P [] = Unit {0}
AllNames P (e ∷ es) = All P e.names × AllNames P es

IsIn-All :
    (P : Bytes → Type 0) (name : Bytes) (names : List Bytes)
    → All P names
    → IsIn name names
    → P name
IsIn-All P name [] all in_names = elim in_names [ ]
IsIn-All P name (x ∷ names) all (inl same) = rw same all.0
IsIn-All P name (x ∷ names) all (inr later) = IsIn-All P name names all.1 later

-- What the table shows of each name holds of all names.
pub Names-All :
    (P : Bytes → Type 0) (es : List Entry) (canonical name : Bytes)
    → AllNames P es
    → Names es canonical name
    → P name
Names-All P [] canonical name all named = elim named [ ]
Names-All P (e ∷ es) canonical name all (inl here) = IsIn-All P name e.names all.0 here.1
Names-All P (e ∷ es) canonical name all (inr later) = Names-All P es canonical name all.1 later

pub Names-short : (canonical name : Bytes) → Names entries canonical name → length name < 32
Names-short canonical name named =
    Names-All (λ n. length n < 32) entries canonical name (omega arith) named
