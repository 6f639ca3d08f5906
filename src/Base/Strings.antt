-- ===== src/Base/Strings.antt =====
-- C strings: a `char *` that ends in NUL is the list of the bytes before the NUL. Reading at the
-- end gives 0; reading further on stays 0, which no modelled code does.
use Prim.Native.Nat.{ℕ, ◌≤◌, ◌<◌}
use Prim.Native.Char.{code}
use Prim.Native.String.{String}
use mathlib.Core.Bool.{Bool, true, false, ◌&&◌, ◌||◌}
use mathlib.Core.List.{List, [], ◌∷◌, ◌++◌}
use mathlib.Core.Path.{◌≡◌, refl}
use native.Mathlib.Omega.{arith}
use tnt.Base.Tests.{◌==◌}
use tnt.Base.Lists.{get_or}

abbrev pub Bytes : Type 0
Bytes = List ℕ

-- `s[i]`
abbrev pub char_at : Bytes → ℕ → ℕ
char_at s i = get_or s i 0

-- `strcmp(a, b) == 0`
unfoldable pub equal : Bytes → Bytes → Bool
equal [] t = elim t [ [] ↦ true | _ ∷ _ ↦ false ]
equal (b ∷ s) t = elim t [ [] ↦ false | c ∷ r ↦ b == c && equal s r ]

pub equal→eq : (s t : Bytes) → equal s t ≡ true → s ≡ t
unfolding equal
equal→eq [] [] h = refl
equal→eq [] (c ∷ t) h = cc
equal→eq (b ∷ s) [] h = cc
equal→eq (b ∷ s) (c ∷ t) h = ground (arith, equal→eq s t)

pub equal_refl : (s : Bytes) → equal s s ≡ true
unfolding equal
equal_refl [] = refl
equal_refl (b ∷ s) = ground (arith, equal_refl s)

-- `strchr(s, c) != NULL`, for a byte `c` that is not NUL.
unfoldable pub contains : ℕ → Bytes → Bool
contains c [] = false
contains c (x ∷ xs) = x == c || contains c xs

-- Every element satisfies `P`.
abbrev pub All {ℓ κ} : {A : Type ℓ} → (A → Type κ) → List A → Type κ
All P [] = Unit
All P (x ∷ xs) = P x × All P xs

module _ {ℓ κ} {A : Type ℓ} (P : A → Type κ) where
  pub All-append : (xs ys : List A) → All P xs → All P ys → All P (xs ++ ys)
  All-append [] ys h k = k
  All-append (x ∷ xs) ys h k = (h.0, All-append xs ys h.1 k)

  pub All-append_inv : (xs ys : List A) → All P (xs ++ ys) → All P xs × All P ys
  All-append_inv [] ys h = (tt, h)
  All-append_inv (x ∷ xs) ys h = let r = All-append_inv xs ys h.1 in ((h.0, r.0), r.1)

-- What a NUL-terminated string can hold.
abbrev pub IsChar : ℕ → Type 0
IsChar b = (1 ≤ b) × (b < 256)

abbrev pub IsCString : Bytes → Type 0
IsCString = All IsChar

-- The code points of a literal; every literal of the development is ASCII.
abbrev pub codes : String → Bytes
codes String.[] = []
codes (String.◌∷◌ c s) = code c ∷ codes s
