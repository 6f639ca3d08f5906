-- ===== src/Utf8/Ansi.antt =====
-- The functions of src/utf8.c that leave out the escape sequences of a terminal:
-- `skip_ansi_sequence`, `utf8_ansi_string_width` and `utf8_ansi_truncate`.
use tnt.Base.{
  ℕ, zero, suc, ◌+◌, ◌-◌, Bool, true, false, not, ◌&&◌, ◌||◌, [], ◌∷◌, ◌++◌, ltb, leb, ◌==◌,
  if◌then◌else◌, length, take, drop, Bytes, char_at, equal,
}
use tnt.Base.Int.{ℤ, pos, negsuc}
use tnt.Utf8.{decode, char_width}

-- `ANSI_RESET`
abbrev pub ansi_reset : Bytes
ansi_reset = 27 ∷ b'[' ∷ b'0' ∷ b'm' ∷ []

-- The loop over the parameters, from `q` on, with what it returns at the end of the string.
skip_parameters : Bytes → Bytes → Bytes
skip_parameters [] at_end = at_end
skip_parameters (c ∷ q) at_end = if leb 0x40 c && leb c 0x7E then q else skip_parameters q at_end

pub skip_ansi_sequence : Bytes → Bytes
unfolding skip_parameters
skip_ansi_sequence p =
    if not (char_at p 0 == 27)
    then p
    else if char_at p 1 == b'['
    then skip_parameters (drop 2 p) (drop 1 p)
    else if char_at p 1 == 0
    then drop 1 p
    else drop 2 p

ansi_width_from : ℕ → Bytes → ℕ → ℕ
ansi_width_from zero p width = width
ansi_width_from (suc fuel) [] width = width
ansi_width_from (suc fuel) (b ∷ p) width =
    let (codepoint, bytes_read) = decode (b ∷ p) in
    let escape = b == 27 in
    ansi_width_from fuel (if escape then skip_ansi_sequence (b ∷ p) else drop bytes_read (b ∷ p))
      (if escape then width else width + char_width codepoint)

pub ansi_string_width : Bytes → ℕ
unfolding ansi_width_from
ansi_string_width str = ansi_width_from (length str) str 0

-- The locals of `utf8_ansi_truncate`: the `pos` bytes of `dst`, and the two flags.
record Copy : Type 0 where
  dst : Bytes
  width : ℕ
  copied_ansi : Bool
  last_ansi_was_reset : Bool

-- The code behind the loop.
close_copy : ℕ → Bool → Copy → Bytes
close_copy dst_size truncated copy =
    if truncated
      && copy.copied_ansi
      && not copy.last_ansi_was_reset
      && ltb (length copy.dst + length ansi_reset) dst_size
    then copy.dst ++ ansi_reset
    else copy.dst

copy_from : ℕ → ℕ → ℕ → Bytes → Copy → Bytes
unfolding close_copy
copy_from zero dst_size max_width p copy = close_copy dst_size false copy
copy_from (suc fuel) dst_size max_width [] copy = close_copy dst_size false copy
copy_from (suc fuel) dst_size max_width (b ∷ p) copy =
    let (codepoint, bytes_read) = decode (b ∷ p) in
    let escape = b == 27 in
    let len = if escape then suc (length p) - length (skip_ansi_sequence (b ∷ p)) else bytes_read in
    let piece = take len (b ∷ p) in
    let wider = copy.width + (if escape then 0 else char_width codepoint) in
    let rest = copy_from fuel dst_size max_width (drop len (b ∷ p)) (record {
      dst = copy.dst ++ piece;
      width = wider;
      copied_ansi = copy.copied_ansi || escape;
      last_ansi_was_reset = if escape then equal piece ansi_reset else copy.last_ansi_was_reset;
    }) in
    if ltb max_width wider || leb dst_size (length copy.dst + len)
    then close_copy dst_size true copy
    else rest

pub ansi_truncate : Bytes → ℕ → ℤ → Bytes
unfolding copy_from
ansi_truncate src dst_size (negsuc n) = []
ansi_truncate src dst_size (pos max_width) =
    if dst_size == 0 || max_width == 0
    then []
    else copy_from (length src) dst_size max_width src
        (record { dst = []; width = 0; copied_ansi = false; last_ansi_was_reset = false })
