-- ===== src/InputBuffer/Erase.antt =====
-- The backspaces keep a line: printable UTF-8 within its buffer.
use tnt.Base.{ℕ, zero, suc, ◌≤◌, [], ◌∷◌, take, Bytes, All, ◌≡◌, arith, length-take}
use tnt.Utf8.{remove_last_char, remove_last_word}
use tnt.Utf8.Spec.{IsUtf8}
use tnt.Utf8.Erase.{
  remove_last_char-IsUtf8, remove_last_word-IsUtf8, remove_last_char-take, remove_last_word-take,
}
use tnt.InputBuffer.Feed.{IsLine}

pub take-All : (P : ℕ → Type 0) (k : ℕ) (s : Bytes) → All P s → All P (take k s)
take-All P zero s h = tt
take-All P (suc k) [] h = tt
take-All P (suc k) (x ∷ s) h = (h.0, take-All P k s h.1)

shorter-IsLine :
    (size k : ℕ) (s t : Bytes) → IsLine size s → t ≡ take k s → IsUtf8 t → IsLine size t
shorter-IsLine size k s t h same u = record {
  text = u;
  printable = rw same (take-All (λ b. 32 ≤ b) k s h.printable);
  within = rw same (omega (arith, h.within, length-take k s));
}

pub remove_last_char-IsLine :
    (size : ℕ) (s : Bytes) → IsLine size s → IsLine size (remove_last_char s)
remove_last_char-IsLine size s h =
    let (k, same) = remove_last_char-take s in
    shorter-IsLine size k s (remove_last_char s) h same (remove_last_char-IsUtf8 s h.text)

pub remove_last_word-IsLine :
    (size : ℕ) (s : Bytes) → IsLine size s → IsLine size (remove_last_word s)
remove_last_word-IsLine size s h =
    let (k, same) = remove_last_word-take s in
    shorter-IsLine size k s (remove_last_word s) h same (remove_last_word-IsUtf8 s h.text)
