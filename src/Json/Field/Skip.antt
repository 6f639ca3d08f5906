-- ===== src/Json/Field/Skip.antt =====
-- A JSON string that `tnt_json_append_string` writes is skipped whole.
use tnt.Base.{
  ℕ, zero, suc, ◌<◌, [], ◌∷◌, ◌++◌, append_assoc, some, length, length-append, Bytes, IsChar,
  IsCString, ◌≡◌, refl, ap, ◌∙◌, inl, inr, arith,
}
use tnt.Json.{quote, escaped}
use tnt.Json.Quote.{quoted, escaped_text, length-le-escaped, escaped_cases, parse_control}
use tnt.Json.Field.{skip_string_from, skip_json_string}

-- One character of a text, whatever its escape.
skip_escaped :
    (fuel c : ℕ) (p : Bytes)
    → IsChar c
    → skip_string_from (suc fuel) (escaped c ++ p) ≡ skip_string_from fuel p
unfolding skip_string_from
skip_escaped fuel c p char = elim (escaped_cases c) [
  | inl (named, facts) ↦ rw named (ground (arith, facts))
  | inr (inl (control, low)) ↦ rw control (ground (arith, parse_control c p low))
  | inr (inr (plain, high, no_quote, no_slash)) ↦ rw plain (ground arith)
]

skip_escaped_text :
    (fuel : ℕ) (text rest : Bytes)
    → IsCString text
    → length text < fuel
    → skip_string_from fuel (escaped_text text ++ (quote ++ rest)) ≡ some rest
unfolding skip_string_from
skip_escaped_text zero text rest chars h = absurd (omega arith)
skip_escaped_text (suc fuel) [] rest chars h = refl
skip_escaped_text (suc fuel) (c ∷ text) rest chars h =
    ap (skip_string_from (suc fuel)) (append_assoc (escaped c) (escaped_text text) (quote ++ rest))
    ∙ skip_escaped fuel c (escaped_text text ++ (quote ++ rest)) chars.0
    ∙ skip_escaped_text fuel text rest chars.1 (omega arith)

-- The cursor stands behind the string, whatever follows.
pub skip_json_string-quoted :
    (text rest : Bytes) → IsCString text → skip_json_string (quoted text ++ rest) ≡ some rest
unfolding skip_json_string
skip_json_string-quoted text rest chars =
    let fuel = length (quoted text ++ rest) in
    let enough : length text < fuel = omega (
      arith,
      length-append (quoted text) rest,
      length-append (escaped_text text) quote,
      length-le-escaped text,
    ) in
    ap (skip_string_from fuel) (append_assoc (escaped_text text) quote rest)
    ∙ skip_escaped_text fuel text rest chars enough
