-- ===== src/Utf8/Backspace.antt =====
-- `utf8_remove_last_char` and `utf8_remove_last_word`.
use mathlib.Core.Path.{subst}
use Prim.Native.Nat.add
use tnt.Base.{
  ℕ, zero, suc, ◌+◌, ◌-◌, ◌/◌, ◌%◌, ◌≤◌, ◌<◌, Bool, true, false, not, ◌≡◌, refl, ap, ◌∙◌, sym, List,
  [], ◌∷◌, ◌++◌, ◌==◌, if◌then◌else◌, length, arith, Bytes, char_at, take, inl, inr, Bool-cases,
  ◌⊎◌, take-length-append, length-append, append-nil,
}
use tnt.Utf8.{is_continuation, char_start, remove_last_char, skip_back, remove_last_word}
use tnt.Utf8.Spec.{IsScalar, encoding, encoded_length, encode_all}
use tnt.Utf8.Text.{length-encoding, encoded_length_bounds}
use tnt.Utf8.Lead.{is_continuation_lem}
use tnt.Utf8.Cut.{encode_all-append}

char_at-append : (p s : Bytes) (k : ℕ) → char_at (p ++ s) (length p + k) ≡ char_at s k
char_at-append [] s k = rw add.zero
char_at-append (b ∷ p) s k = rw add.suc (char_at-append p s k)

-- Walking back over continuation bytes ends at the first byte that is none.
char_start_back :
    (s : Bytes) (n k : ℕ)
    → is_continuation (char_at s n) ≡ false
    → ((j : ℕ) → 1 ≤ j → j ≤ k → is_continuation (char_at s (n + j)) ≡ true)
    → (i : ℕ) → i ≡ n + k
    → char_start s i ≡ n
unfolding char_start
char_start_back s zero zero lead tails zero e = refl
char_start_back s (suc n) k lead tails zero e = absurd (omega arith)
char_start_back s n (suc k) lead tails zero e = absurd (omega arith)
char_start_back s n zero lead tails (suc i) e =
    let at : n ≡ suc i = omega arith in
    rw (subst (λ m. is_continuation (char_at s m) ≡ false) at lead) (sym at)
char_start_back s n (suc k) lead tails (suc i) e =
    let at : n + suc k ≡ suc i = omega arith in
    rw
      (subst (λ m. is_continuation (char_at s m) ≡ true) at
        (tails (suc k) (omega arith) (omega arith)))
      (char_start_back s n k lead (λ j h h'. tails j h (omega arith)) i (omega arith))

-- The first byte of a code point is no continuation byte, and the others are.
encoding_lead : (cp : ℕ) → IsScalar cp → is_continuation (char_at (encoding cp) 0) ≡ false
encoding_lead cp h = ground (
  arith,
  is_continuation_lem cp,
  is_continuation_lem (0xC0 + cp / 64),
  is_continuation_lem (0xE0 + cp / 4096),
  is_continuation_lem (0xF0 + cp / 262144),
)

encoding_tails :
    (cp : ℕ)
    → IsScalar cp
    → (j : ℕ) → 1 ≤ j
    → j ≤ encoded_length cp - 1
    → is_continuation (char_at (encoding cp) j) ≡ true
encoding_tails cp h zero p q = absurd (omega arith)
encoding_tails cp h (suc zero) p q = ground (
  arith,
  is_continuation_lem (0x80 + cp % 64),
  is_continuation_lem (0x80 + cp / 64 % 64),
  is_continuation_lem (0x80 + cp / 4096 % 64),
)
encoding_tails cp h (suc (suc zero)) p q =
    ground (arith, is_continuation_lem (0x80 + cp % 64), is_continuation_lem (0x80 + cp / 64 % 64))
encoding_tails cp h (suc (suc (suc zero))) p q =
    ground (arith, is_continuation_lem (0x80 + cp % 64))
encoding_tails cp h (suc (suc (suc (suc j)))) p q = absurd (omega (arith, encoded_length_bounds cp))

-- The walk back from the end of a text stops where its last code point starts.
char_start_last :
    (p : Bytes) (cp : ℕ)
    → IsScalar cp
    → char_start (p ++ encoding cp) (length (p ++ encoding cp) - 1) ≡ length p
char_start_last p cp h =
    char_start_back (p ++ encoding cp) (length p) (encoded_length cp - 1)
      (subst (λ b. is_continuation b ≡ false) (sym (lead ∙ char_at-append p (encoding cp) 0))
        (encoding_lead cp h))
      (λ j q q'.
        subst (λ b. is_continuation b ≡ true) (sym (char_at-append p (encoding cp) j))
          (encoding_tails cp h j q q'))
      (length (p ++ encoding cp) - 1)
      (omega (arith, length-append p (encoding cp), length-encoding cp, encoded_length_bounds cp))
  where
    lead : char_at (p ++ encoding cp) (length p) ≡ char_at (p ++ encoding cp) (length p + 0)
    lead = ap (char_at (p ++ encoding cp)) (omega arith)

-- Removing the last character of well-formed UTF-8 removes its last code point, all bytes of it,
-- and nothing else.
pub remove_last_char-concat :
    (cps : List ℕ) (cp : ℕ)
    → IsScalar cp
    → remove_last_char (encode_all (cps ++ cp ∷ [])) ≡ encode_all cps
unfolding remove_last_char
remove_last_char-concat cps cp h =
    rw (encode_all-append cps (cp ∷ []), append-nil (encoding cp))
      (ground (
        arith,
        char_start_last (encode_all cps) cp h,
        take-length-append (encode_all cps) (encoding cp),
        length-append (encode_all cps) (encoding cp),
        length-encoding cp,
        encoded_length_bounds cp,
      ))

-- The byte passes the test of the loop that `space` picks.
abbrev passes : Bool → ℕ → Bool
passes space b = if space then b == b' ' else not (b == b' ')

-- Where a loop over the bytes before `i` stops.
pub record StopsAt (space : Bool) (s : Bytes) (i j : ℕ) : Type 0 where
  pub back : j ≤ i
  pub passed : (k : ℕ) → j ≤ k → k < i → passes space (char_at s k) ≡ true
  pub stopped : (j ≡ 0) ⊎ (passes space (char_at s (j - 1)) ≡ false)

skip_back-StopsAt : (space : Bool) (s : Bytes) (i : ℕ) → StopsAt space s i (skip_back space s i)
unfolding skip_back
skip_back-StopsAt space s zero = record {
  back = omega arith;
  passed = λ k h h'. absurd (omega arith);
  stopped = inl refl;
}
skip_back-StopsAt space s (suc i) =
    let last : i ≡ suc i - 1 = omega arith in
    elim (Bool-cases (passes space (char_at s i))) [
      | inl go ↦
          let r = skip_back-StopsAt space s i in
          rw go (record {
            back = omega (arith, r.back);
            passed = λ k h h'. elim (Bool-cases (k == i)) [
              | inl e ↦
                  let at : i ≡ k = ground arith in
                  subst (λ m. passes space (char_at s m) ≡ true) at go
              | inr ne ↦ r.passed k h (ground arith)
            ];
            stopped = r.stopped;
          })
      | inr stop ↦ rw stop (record {
        back = omega arith;
        passed = λ k h h'. absurd (omega arith);
        stopped = inr (subst (λ m. passes space (char_at s m) ≡ false) last stop);
      })
    ]

-- The word that goes: the bytes from `start` up to `end` are no spaces, those behind are spaces.
pub record WordRemoved (s t : Bytes) : Type 0 where
  pub word_end : ℕ
  pub word_start : ℕ
  pub spaces : StopsAt true s (length s) word_end
  pub word : StopsAt false s word_end word_start
  pub rest : t ≡ take word_start s

-- Removing the last word of any string leaves what stands before it: the spaces at the end go,
-- then all bytes back to the next space or the start of the string, and no more.
pub remove_last_word-WordRemoved : (s : Bytes) → WordRemoved s (remove_last_word s)
unfolding remove_last_word
remove_last_word-WordRemoved [] = record {
  word_end = 0;
  word_start = 0;
  spaces = skip_back-StopsAt true [] 0;
  word = skip_back-StopsAt false [] 0;
  rest = refl;
}
remove_last_word-WordRemoved (b ∷ s) = record {
  word_end = skip_back true (b ∷ s) (length (b ∷ s));
  word_start = skip_back false (b ∷ s) (skip_back true (b ∷ s) (length (b ∷ s)));
  spaces = skip_back-StopsAt true (b ∷ s) (length (b ∷ s));
  word = skip_back-StopsAt false (b ∷ s) (skip_back true (b ∷ s) (length (b ∷ s)));
  rest = ground arith;
}
