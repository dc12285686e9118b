-- ===== src/Py/Regex.antt =====
-- The module `re` as far as the scripts use it: patterns as data and the backtracking search for the
-- first match, with the texts of the groups. Repetition is of one character at a time.
use desan.Prelude.{
  ℕ, zero, suc, ◌-◌, ◌≡◌, refl, Bool, false, ◌&&◌, ◌||◌, not, Option, none, some, List, [], ◌∷◌,
  ◌++◌, leb, ◌==◌, nat_eq, length, if◌then◌else◌,
}
use desan.Py.Text.{Str, codes, is_space, is_digit}

pub data Regex : Type 0 where
  empty : Regex
  -- one character of a class
  one : (ℕ → Bool) → Regex
  -- `[…]*` and `[…]*?`
  many : (ℕ → Bool) → Regex
  many_lazy : (ℕ → Bool) → Regex
  seq : Regex → Regex → Regex
  alt : Regex → Regex → Regex
  group : Regex → Regex
  -- `\b`, and `$` for a text without a line end
  boundary : Regex
  finish : Regex

-- A place in a text: the character before it, and what follows.
abbrev pub Place : Type 0
Place = Option ℕ × Str

-- Where a match ends, and its groups.
abbrev pub Match : Type 0
Match = Place × List Str

abbrev Rest : Type 0
Rest = Place → List Str → Option Match

abbrev pub or_else {ℓ} : {A : Type ℓ} → Option A → Option A → Option A
or_else none b = b
or_else (some a) b = some a

abbrev pub is_letter : ℕ → Bool
is_letter c = (leb b'A' c && leb c b'Z') || (leb b'a' c && leb c b'z')

-- `\w`
abbrev pub is_word : ℕ → Bool
is_word c = is_letter c || is_digit c || c == b'_'

abbrev pub any : ℕ → Bool
any c = not (c == 10)

abbrev word_before : Option ℕ → Bool
word_before none = false
word_before (some c) = is_word c

abbrev word_after : Str → Bool
word_after [] = false
word_after (c ∷ s) = is_word c

abbrev is_boundary : Place → Bool
is_boundary (prev, s) = if word_before prev then not (word_after s) else word_after s

-- The longest run first.
unfoldable pub greedy : (ℕ → Bool) → Option ℕ → Str → List Str → Rest → Option Match
greedy test prev [] groups rest = rest (prev, []) groups
greedy test prev (c ∷ s) groups rest =
    let more = greedy test (some c) s groups rest in
    let stop = rest (prev, c ∷ s) groups in if test c then or_else more stop else stop

-- The shortest run first.
unfoldable pub sparing : (ℕ → Bool) → Option ℕ → Str → List Str → Rest → Option Match
sparing test prev [] groups rest = rest (prev, []) groups
sparing test prev (c ∷ s) groups rest =
    let more = sparing test (some c) s groups rest in
    or_else (rest (prev, c ∷ s) groups) (if test c then more else none)

abbrev step : (ℕ → Bool) → Option ℕ → Str → List Str → Rest → Option Match
step test prev [] groups rest = none
step test prev (c ∷ s) groups rest = if test c then rest (some c, s) groups else none

abbrev at_end : Place → List Str → Rest → Option Match
at_end (prev, []) groups rest = rest (prev, []) groups
at_end (prev, c ∷ s) groups rest = none

abbrev pub first_chars : ℕ → Str → Str
first_chars zero s = []
first_chars (suc n) [] = []
first_chars (suc n) (c ∷ s) = c ∷ first_chars n s

-- The text between two places.
abbrev pub between : Str → Str → Str
between s t = first_chars (length s - length t) s

unfoldable pub run : Regex → Place → List Str → Rest → Option Match
unfolding greedy sparing
run empty p groups rest = rest p groups
run (one test) (prev, s) groups rest = step test prev s groups rest
run (many test) (prev, s) groups rest = greedy test prev s groups rest
run (many_lazy test) (prev, s) groups rest = sparing test prev s groups rest
run (seq a b) p groups rest = run a p groups (λ q gs. run b q gs rest)
run (alt a b) p groups rest = or_else (run a p groups rest) (run b p groups rest)
run (group a) (prev, s) groups rest =
    run a (prev, s) groups (λ q gs. rest q (gs ++ (between s q.1 ∷ [])))
run boundary p groups rest = if is_boundary p then rest p groups else none
run finish p groups rest = at_end p groups rest

-- `r.match(s)` from a place
unfoldable pub match_at : Regex → Place → Option Match
unfolding run
match_at r p = run r p [] (λ q groups. some (q, groups))

abbrev groups_of : Option Match → Option (List Str)
groups_of none = none
groups_of (some (q, groups)) = some groups

-- `r.match(s)`, with the groups
unfoldable pub match : Regex → Str → Option (List Str)
unfolding match_at
match r s = groups_of (match_at r (none, s))

unfoldable pub search_from : Regex → Option ℕ → Str → Option (List Str)
unfolding match_at
search_from r prev [] = groups_of (match_at r (prev, []))
search_from r prev (c ∷ s) =
    or_else (groups_of (match_at r (prev, c ∷ s))) (search_from r (some c) s)

-- `r.search(s)`, with the groups
unfoldable pub search : Regex → Str → Option (List Str)
unfolding search_from
search r s = search_from r none s

-- The matches behind the next `skip` characters. No pattern matches an empty text.
unfoldable pub find_from : Regex → Option ℕ → ℕ → Str → List (List Str)
unfolding match_at
find_from r prev skip [] = []
find_from r prev (suc skip) (c ∷ s) = find_from r (some c) skip s
find_from r prev zero (c ∷ s) = elim (match_at r (prev, c ∷ s)) [
  | none ↦ find_from r (some c) zero s
  | some (q, groups) ↦ groups ∷ find_from r (some c) (length s - length q.1) s
]

-- `r.findall(s)`, as the groups of the matches
unfoldable pub findall : Regex → Str → List (List Str)
unfolding find_from
findall r s = find_from r none zero s

-- Patterns made of others.
abbrev pub literal : Str → Regex
literal [] = empty
literal (c ∷ s) = seq (one (λ d. d == c)) (literal s)

-- `[…]+`
abbrev pub some_of : (ℕ → Bool) → Regex
some_of test = seq (one test) (many test)

infixr 40 ◌<>◌
abbrev pub ◌<>◌ : Regex → Regex → Regex
a <> b = seq a b

i8_test :
    findall
      (boundary <> literal (codes "i8") <> some_of is_space <> group (some_of is_digit) <> boundary)
      (codes "{ i8 4, i8  12, xi8 3 }")
    ≡ (codes "4" ∷ []) ∷ (codes "12" ∷ []) ∷ []
unfolding findall
i8_test = refl
