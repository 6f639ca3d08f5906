-- ===== src/Input/CommandLine/Ascii.antt =====
-- src/input.c: where all names are ASCII, Tab completes a command line to one that is printable and fits.
use tnt.Base.{
  Bool-cases, inl, inr, ℕ, zero, suc, ◌-◌, ◌≤◌, ◌<◌, ◌||◌, Bool, true, List, [], ◌∷◌, ◌++◌, length,
  take, drop, get_or, codes, Bytes, ◌≡◌, refl, arith, All, All-append, if◌then◌else◌,
}
use tnt.Utf8.Spec.{IsScalar, encode_all}
use tnt.InputBuffer.Feed.{IsLine}
use tnt.CommandCatalog.{
  has_prefix, skip_spaces, common, Entry, Completion, complete_name, complete_entries, complete,
  entries,
}
use tnt.Input.Session.{Session, World}
use tnt.Input.CommandLine.{
  filter_names, prefix_filter, first_word, same_word, candidates, completed, command_tab_complete,
}

-- A printable byte of ASCII, or DEL
abbrev pub IsPlain : ℕ → Type 0
IsPlain b = (32 ≤ b) × (b < 128)

-- A name in ASCII that fits its field
pub record IsPlainName (name : Bytes) : Type 0 where
  pub bytes : All IsPlain name
  pub short : length name < 64

plain_encode_all : (s : Bytes) → All IsPlain s → encode_all s ≡ s
plain_encode_all [] h = refl
plain_encode_all (b ∷ s) h = ground (arith, plain_encode_all s h.1)

plain_IsScalar : (s : Bytes) → All IsPlain s → All IsScalar s
plain_IsScalar [] h = tt
plain_IsScalar (b ∷ s) h = (ground arith, plain_IsScalar s h.1)

plain_printable : (s : Bytes) → All IsPlain s → All (λ b. 32 ≤ b) s
plain_printable [] h = tt
plain_printable (b ∷ s) h = (h.0.0, plain_printable s h.1)

pub plain_IsLine : (size : ℕ) (s : Bytes) → All IsPlain s → length s < size → IsLine size s
plain_IsLine size s h fits = record {
  text = record { points = s; scalars = plain_IsScalar s h; spells = plain_encode_all s h };
  printable = plain_printable s h;
  within = fits;
}

take-IsPlain : (n : ℕ) (s : Bytes) → All IsPlain s → All IsPlain (take n s)
take-IsPlain zero [] h = tt
take-IsPlain zero (b ∷ s) h = tt
take-IsPlain (suc n) [] h = tt
take-IsPlain (suc n) (b ∷ s) h = (h.0, take-IsPlain n s h.1)

length-take : (n : ℕ) (s : Bytes) → length (take n s) ≤ n
length-take zero [] = omega arith
length-take zero (b ∷ s) = omega arith
length-take (suc n) [] = omega arith
length-take (suc n) (b ∷ s) = omega (arith, length-take n s)

common-IsPlain : (lcp name : Bytes) → All IsPlain lcp → All IsPlain (common lcp name)
unfolding common
common-IsPlain [] name h = tt
common-IsPlain (a ∷ lcp) [] h = tt
common-IsPlain (a ∷ lcp) (b ∷ name) h = ground (arith, common-IsPlain lcp name h.1)

-- What has been found so far is in ASCII.
record IsFound (c : Completion) : Type 0 where
  out : All (All IsPlain) c.out
  lcp : All IsPlain c.lcp

complete_name-IsFound :
    (max lcp_size : ℕ) (name : Bytes) (c : Completion)
    → All IsPlain name
    → IsFound c
    → IsFound (complete_name max lcp_size name c)
unfolding complete_name
complete_name-IsFound max lcp_size name c n h = ground (
  arith,
  All-append (All IsPlain) c.out (name ∷ []) h.out (n, tt),
  take-IsPlain (lcp_size - 1) name n,
  common-IsPlain c.lcp name h.lcp,
)

filter_names-IsFound :
    (cands : List Bytes) (prefix : Bytes) (max lcp_size : ℕ) (c : Completion)
    → All (All IsPlain) cands
    → IsFound c
    → IsFound (filter_names cands prefix max lcp_size c)
unfolding filter_names
filter_names-IsFound [] prefix max lcp_size c n h = h
filter_names-IsFound (name ∷ cands) prefix max lcp_size c n h =
    filter_names-IsFound cands prefix max lcp_size
      (if has_prefix name prefix then complete_name max lcp_size name c else c) n.1
      (ground (arith, complete_name-IsFound max lcp_size name c n.0 h))

get_or-IsPlain : (out : List Bytes) (i : ℕ) → All (All IsPlain) out → All IsPlain (get_or out i [])
get_or-IsPlain [] i h = tt
get_or-IsPlain (x ∷ out) zero h = h.0
get_or-IsPlain (x ∷ out) (suc i) h = get_or-IsPlain out i h.1

completed-IsLine :
    (s : Session) (front word : Bytes) (c : Completion)
    → IsLine 256 s.command_input
    → All IsPlain front
    → IsFound c
    → IsLine 256 (completed s front word c).0.command_input
unfolding completed
completed-IsLine s front word c h f n =
    let cut : (t : Bytes) → All IsPlain t → IsLine 256 (take 255 (front ++ t)) = λ t k.
      plain_IsLine 256 (take 255 (front ++ t))
        (take-IsPlain 255 (front ++ t) (All-append IsPlain front t f k))
        (omega (arith, length-take 255 (front ++ t))) in
    let name = get_or c.out 0 [] in
    let one =
      cut (name ++ 32 ∷ [])
        (All-append IsPlain name (32 ∷ []) (get_or-IsPlain c.out 0 n.out) (omega arith)) in
    ground (arith, one, cut c.lcp n.lcp)

has_prefix-IsPlain :
    (a b : Bytes) → All IsPlain b → has_prefix a b ≡ true → length a ≡ length b → All IsPlain a
unfolding has_prefix
has_prefix-IsPlain [] b h e l = tt
has_prefix-IsPlain (x ∷ a) [] h e l = absurd (omega arith)
has_prefix-IsPlain (x ∷ a) (y ∷ b) h e l =
    (ground arith, has_prefix-IsPlain a b h.1 (ground arith) (omega arith))

same_word-IsPlain : (a b : Bytes) → All IsPlain b → same_word a b ≡ true → All IsPlain a
same_word-IsPlain a b h e = has_prefix-IsPlain a b h (ground arith) (ground arith)

take_names : (n : ℕ) (xs : List Bytes) → All (All IsPlain) xs → All (All IsPlain) (take n xs)
take_names zero [] h = tt
take_names zero (x ∷ xs) h = tt
take_names (suc n) [] h = tt
take_names (suc n) (x ∷ xs) h = (h.0, take_names n xs h.1)

one_of-IsPlain :
    (cmd a b : Bytes)
    → All IsPlain a
    → All IsPlain b
    → same_word cmd a || same_word cmd b ≡ true
    → All IsPlain cmd
one_of-IsPlain cmd a b h k e = elim (Bool-cases (same_word cmd a)) [
  | inl first ↦ same_word-IsPlain cmd a h first
  | inr other ↦ same_word-IsPlain cmd b k (ground arith)
]

candidates-IsPlain :
    (w : World) (cmd : Bytes)
    → All (All IsPlain) w.usernames
    → All (All IsPlain) (candidates w cmd).1 × ((candidates w cmd).0 ≡ true → All IsPlain cmd)
unfolding candidates
candidates-IsPlain w cmd h =
    let is : Bytes → Bytes → Bool = λ a b. same_word cmd a || same_word cmd b in
    elim (Bool-cases (is (codes "theme") (codes "color"))) [
      | inl theme ↦ rw theme (
        omega arith,
        λ k. one_of-IsPlain cmd (codes "theme") (codes "color") (omega arith) (omega arith) theme,
      )
      | inr no_theme ↦ elim (Bool-cases (is (codes "lang") (codes "language"))) [
        | inl lang ↦
            rw (no_theme, lang)
              (
                omega arith,
                λ k.
                    one_of-IsPlain cmd (codes "lang") (codes "language") (omega arith) (omega arith)
                      lang,
              )
        | inr no_lang ↦ elim (Bool-cases (is (codes "msg") (codes "w"))) [
          | inl msg ↦
              rw (no_theme, no_lang, msg)
                (
                  take_names 64 w.usernames h,
                  λ k. one_of-IsPlain cmd (codes "msg") (codes "w") (omega arith) (omega arith) msg,
                )
          | inr unknown ↦ rw (no_theme, no_lang, unknown) (tt, λ k. absurd (cc))
        ]
      ]
    ]

complete_entries-IsFound :
    (prefix : Bytes) (max lcp_size : ℕ) (es : List Entry) (c : Completion)
    → All (λ e. All IsPlain e.canonical) es
    → IsFound c
    → IsFound (complete_entries prefix max lcp_size es c)
unfolding complete_entries
complete_entries-IsFound prefix max lcp_size [] c n h = h
complete_entries-IsFound prefix max lcp_size (e ∷ es) c n h =
    complete_entries-IsFound prefix max lcp_size es
      (if has_prefix e.canonical prefix then complete_name max lcp_size e.canonical c else c) n.1
      (ground (arith, complete_name-IsFound max lcp_size e.canonical c n.0 h))

nothing-IsFound : IsFound (record { out = []; lcp = []; count = 0 })
nothing-IsFound = record { out = tt; lcp = tt }

complete-IsFound : (prefix : Bytes) → IsFound (complete prefix 16 64)
unfolding complete
complete-IsFound prefix =
    complete_entries-IsFound prefix 16 64 entries (record { out = []; lcp = []; count = 0 })
      (omega arith) nothing-IsFound

names_bytes : (names : List Bytes) → All IsPlainName names → All (All IsPlain) names
names_bytes [] h = tt
names_bytes (name ∷ names) h = (h.0.bytes, names_bytes names h.1)

completed_only :
    (s : Session) (front word : Bytes) (c : Completion)
    → (completed s front word c).0
      ≡ record s { command_input = (completed s front word c).0.command_input }
unfolding completed
completed_only s front word c = ground arith

-- Only the line changes.
pub command_tab_complete_only :
    (w : World) (s : Session)
    → (command_tab_complete w s).0
      ≡ record s { command_input = (command_tab_complete w s).0.command_input }
unfolding command_tab_complete
command_tab_complete_only w s =
    let buf = s.command_input in
    let cmd = first_word buf in
    let word = skip_spaces (drop (length cmd) buf) in
    ground (
      arith,
      completed_only s [] buf (complete buf 16 64),
      completed_only s (cmd ++ 32 ∷ []) word (prefix_filter (candidates w cmd).1 word 64 64),
    )

pub command_tab_complete-IsLine :
    (w : World) (s : Session)
    → All IsPlainName w.usernames
    → IsLine 256 s.command_input
    → IsLine 256 (command_tab_complete w s).0.command_input
unfolding command_tab_complete prefix_filter
command_tab_complete-IsLine w s names h =
    let buf = s.command_input in
    let cmd = first_word buf in
    let word = skip_spaces (drop (length cmd) buf) in
    let (plain, typed) = candidates-IsPlain w cmd (names_bytes w.usernames names) in
    let found =
      filter_names-IsFound (candidates w cmd).1 word 64 64
        (record { out = []; lcp = []; count = 0 }) plain nothing-IsFound in
    let front : (candidates w cmd).0 ≡ true → All IsPlain (cmd ++ 32 ∷ []) =
      λ k. All-append IsPlain cmd (32 ∷ []) (typed k) (omega arith) in
    ground (
      arith,
      completed-IsLine s [] buf (complete buf 16 64) h tt (complete-IsFound buf),
      λ (k : (candidates w cmd).0 ≡ true).
          completed-IsLine s (cmd ++ 32 ∷ []) word (prefix_filter (candidates w cmd).1 word 64 64) h
            (front k) found,
    )
