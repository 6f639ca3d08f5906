-- ===== src/Input/Lines.antt =====
-- Lines in histories, and a line that a completed mention makes.
use tnt.Base.{
  ℕ, zero, suc, ◌+◌, ◌-◌, ◌≤◌, ◌<◌, List, [], ◌∷◌, ◌++◌, some, length, get_or, take, drop, Bytes,
  char_at, ◌≡◌, refl, ◌∙◌, arith, All, All-append, length-append, length-take, length-drop,
}
use tnt.Utf8.Spec.{IsScalar, IsUtf8}
use tnt.Utf8.Cut.{encode_all-append}
use tnt.Utf8.Erase.{cut-IsUtf8}
use tnt.InputBuffer.Feed.{IsLine}
use tnt.InputBuffer.Erase.{take-All}
use tnt.Input.InsertMode.{max_hist, remember, mention_below}

-- A history of at most sixteen lines, each of which fits a buffer.
pub record IsHistory (size : ℕ) (history : List Bytes) : Type 0 where
  pub lines : All (IsLine size) history
  pub count : length history ≤ max_hist

pub empty-IsLine : (size : ℕ) → 0 < size → IsLine size []
empty-IsLine size h = record {
  text = record { points = []; scalars = tt; spells = refl };
  printable = tt;
  within = h;
}

pub get_or-IsLine :
    (size : ℕ) (history : List Bytes) (i : ℕ)
    → 0 < size
    → All (IsLine size) history
    → IsLine size (get_or history i [])
get_or-IsLine size [] i pos h = empty-IsLine size pos
get_or-IsLine size (x ∷ history) zero pos h = h.0
get_or-IsLine size (x ∷ history) (suc i) pos h = get_or-IsLine size history i pos h.1

take-IsLine : (size n : ℕ) (xs : List Bytes) → All (IsLine size) xs → All (IsLine size) (take n xs)
take-IsLine size zero xs h = tt
take-IsLine size (suc n) [] h = tt
take-IsLine size (suc n) (x ∷ xs) h = (h.0, take-IsLine size n xs h.1)

drop-IsLine : (size n : ℕ) (xs : List Bytes) → All (IsLine size) xs → All (IsLine size) (drop n xs)
drop-IsLine size zero xs h = h
drop-IsLine size (suc n) [] h = tt
drop-IsLine size (suc n) (x ∷ xs) h = drop-IsLine size n xs h.1

pub remember-IsHistory :
    (size : ℕ) (history : List Bytes) (line : Bytes)
    → IsHistory size history
    → IsLine size line
    → IsHistory size (remember history line)
unfolding remember
remember-IsHistory size history line h k =
    let shorter =
      take-IsLine size (max_hist - 1) (drop 1 history) (drop-IsLine size 1 history h.lines) in
    let full =
      All-append (IsLine size) (take (max_hist - 1) (drop 1 history)) (line ∷ []) shorter (k, tt) in
    let free = All-append (IsLine size) history (line ∷ []) h.lines (k, tt) in
    ground (
      arith,
      full,
      free,
      length-append history (line ∷ []),
      length-append (take (max_hist - 1) (drop 1 history)) (line ∷ []),
      length-take (max_hist - 1) (drop 1 history),
      length-drop 1 history,
    )

append-IsUtf8 : (s t : Bytes) → IsUtf8 s → IsUtf8 t → IsUtf8 (s ++ t)
append-IsUtf8 s t u v = record {
  points = u.points ++ v.points;
  scalars = All-append IsScalar u.points v.points u.scalars v.scalars;
  spells = encode_all-append u.points v.points ∙ rw (u.spells, v.spells) refl;
}

-- A mention is found at an `@` of the line.
pub mention_below_found :
    (i at : ℕ) (input : Bytes)
    → mention_below i input ≡ some at
    → (at < i) × (char_at input at ≡ b'@')
unfolding mention_below
mention_below_found zero at input found = absurd (cc)
mention_below_found (suc i) at input found = ground (arith, mention_below_found i at input)

-- The line up to the `@`, a name and a space.
pub mention-IsLine :
    (size max at : ℕ) (input name : Bytes)
    → IsLine size input
    → char_at input at ≡ b'@'
    → at < length input
    → IsLine max name
    → length name + 1 ≤ size - 1 - at - 1
    → IsLine size (take (at + 1) input ++ (name ++ b' ' ∷ []))
mention-IsLine size max at input name h mention inside n fits =
    let next : at + 1 ≡ suc at = omega arith in
    let front = cut-IsUtf8 input at h.text (omega arith) in
    let space : IsUtf8 (b' ' ∷ []) = record {
      points = b' ' ∷ [];
      scalars = omega arith;
      spells = refl;
    } in
    rw next (record {
      text =
          append-IsUtf8 (take (suc at) input) (name ++ b' ' ∷ []) front
            (append-IsUtf8 name (b' ' ∷ []) n.text space);
      printable =
          All-append (λ b. 32 ≤ b) (take (suc at) input) (name ++ b' ' ∷ [])
            (take-All (λ b. 32 ≤ b) (suc at) input h.printable)
            (All-append (λ b. 32 ≤ b) name (b' ' ∷ []) n.printable (omega arith));
      within = omega (
        arith,
        h.within,
        length-append (take (suc at) input) (name ++ b' ' ∷ []),
        length-append name (b' ' ∷ []),
        length-take (suc at) input,
      );
    })
