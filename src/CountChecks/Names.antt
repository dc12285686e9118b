-- ===== src/CountChecks/Names.antt =====
-- The names that scripts/count_sanitizer_checks.py counts are words, and each is counted once.
use desan.Py.Text.{after_first, Str, codes, starts_with}
use desan.CountChecks.{
  is_name_char, is_letter, is_word_char, count_line, count_lines, call_name, call_from, call_here,
  behind_keyword, callee, take_name, drop_prefix,
}
use desan.Prelude.{
  ℕ, ◌≢◌, Bool, true, false, ◌||◌, Option, none, some, List, [], ◌∷◌, Dict, insert,
  insert-NodupKeys, NodupKeys, nat_eq, list_eq, ◌==◌, arith, All, Bool-cases, Option-cases, inl,
  inr,
}
use desan.Py.Text.Laws.{IsWord}

-- A name that a printed log can hold: not empty, and without white space.
pub record IsName (item : Str × ℕ) : Type 0 where
  pub word : IsWord item.0
  pub filled : item.0 ≢ []

take_name-IsWord : (s : Str) → IsWord (take_name s)
unfolding take_name
take_name-IsWord [] = tt
take_name-IsWord (c ∷ s) = elim (Bool-cases (is_name_char c)) [
  | inl e ↦ rw e (ground arith, take_name-IsWord s)
  | inr e ↦ rw e tt
]

-- A text that begins with something and has no white space.
abbrev IsFilledWord : Option Str → Type 0
IsFilledWord none = Unit
IsFilledWord (some name) = IsWord name × (name ≢ [])

callee-IsFilledWord : (s : Str) → IsFilledWord (callee s)
unfolding callee
callee-IsFilledWord [] = tt
callee-IsFilledWord (c ∷ s) = elim (Bool-cases (is_letter c || c == b'_')) [
  | inl e ↦ rw e ((ground arith, take_name-IsWord s), λ p. cc)
  | inr e ↦ rw e tt
]

behind_keyword-IsFilledWord : (s : Str) → IsFilledWord (behind_keyword s)
unfolding behind_keyword
behind_keyword-IsFilledWord [] = tt
behind_keyword-IsFilledWord (c ∷ s) = elim (Bool-cases (is_word_char c)) [
  | inl e ↦ rw e tt
  | inr e ↦ rw e (elim (Option-cases (after_first b'@' (c ∷ s))) [
    | inl p ↦ rw p tt
    | inr (t, p) ↦ rw p (callee-IsFilledWord t)
  ])
]

call_here-IsFilledWord : (prev : Bool) (s : Str) → IsFilledWord (call_here prev s)
unfolding call_here
call_here-IsFilledWord true s = tt
call_here-IsFilledWord false s = elim (Option-cases (drop_prefix s (codes "call"))) [
  | inl e ↦
      rw (e, call_here)
        (elim (Option-cases (drop_prefix s (codes "invoke"))) [
          | inl p ↦ rw p tt
          | inr (t, p) ↦ rw p (behind_keyword-IsFilledWord t)
        ])
  | inr (t, e) ↦ rw (e, call_here) (behind_keyword-IsFilledWord t)
]

or_next :
    (o next : Option Str)
    → IsFilledWord o
    → IsFilledWord next
    → IsFilledWord (elim o [ some name ↦ some name | none ↦ next ])
or_next none next h k = k
or_next (some name) next h k = h

call_from-IsFilledWord : (prev : Bool) (s : Str) → IsFilledWord (call_from prev s)
unfolding call_from
call_from-IsFilledWord prev [] = tt
call_from-IsFilledWord prev (c ∷ s) =
    or_next (call_here prev (c ∷ s)) (call_from (is_word_char c) s)
      (call_here-IsFilledWord prev (c ∷ s)) (call_from-IsFilledWord (is_word_char c) s)

abbrev pub AllNames : Dict Str ℕ → Type 0
AllNames = All IsName

insert-AllNames :
    (name : Str) (count : ℕ) (d : Dict Str ℕ)
    → IsWord name × (name ≢ [])
    → AllNames d
    → AllNames (insert name count d)
unfolding insert
insert-AllNames name count [] h _ = (record { word = h.0; filled = h.1 }, tt)
insert-AllNames name count ((n, k) ∷ d) h (g, gs) = elim (Bool-cases (n == name)) [
  | inl e ↦ rw e (record { word = g.word; filled = g.filled }, gs)
  | inr e ↦ rw e (g, insert-AllNames name count d h gs)
]

count_line-AllNames :
    (prefix : Str) (d : Dict Str ℕ) (line : Str) → AllNames d → AllNames (count_line prefix d line)
unfolding count_line
count_line-AllNames prefix d line h = elim (Option-cases (call_name line)) [
  | inl e ↦ rw (e, count_line) h
  | inr (name, e) ↦
      rw (e, count_line)
        (elim (Bool-cases (starts_with name prefix)) [
          | inl p ↦ rw p (
              insert-AllNames name _ d
                (unfold call_name in rw e at (call_from-IsFilledWord false line)) h)
          | inr p ↦ rw p h
        ])
]

count_line-NodupKeys :
    (prefix : Str) (d : Dict Str ℕ) (line : Str)
    → NodupKeys d
    → NodupKeys (count_line prefix d line)
unfolding count_line
count_line-NodupKeys prefix d line h = elim (Option-cases (call_name line)) [
  | inl e ↦ rw (e, count_line) h
  | inr (name, e) ↦
      rw (e, count_line)
        (elim (Bool-cases (starts_with name prefix)) [
          | inl p ↦ rw p (insert-NodupKeys name _ d h)
          | inr p ↦ rw p h
        ])
]

-- The counts have each name once, and a name can be printed and read back.
pub count_lines-AllNames :
    (prefix : Str) (d : Dict Str ℕ) (lines : List Str)
    → AllNames d
    → AllNames (count_lines prefix d lines)
unfolding count_lines
count_lines-AllNames prefix d [] h = h
count_lines-AllNames prefix d (line ∷ lines) h =
    count_lines-AllNames prefix (count_line prefix d line) lines
      (count_line-AllNames prefix d line h)

pub count_lines-NodupKeys :
    (prefix : Str) (d : Dict Str ℕ) (lines : List Str)
    → NodupKeys d
    → NodupKeys (count_lines prefix d lines)
unfolding count_lines
count_lines-NodupKeys prefix d [] h = h
count_lines-NodupKeys prefix d (line ∷ lines) h =
    count_lines-NodupKeys prefix (count_line prefix d line) lines
      (count_line-NodupKeys prefix d line h)
