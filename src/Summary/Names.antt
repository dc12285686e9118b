-- ===== src/Summary/Names.antt =====
-- The names of the benchmarks in the summaries: `sorted(set(…) | set(…) | …)`.
use desan.Prelude.{
  ◌≡◌, refl, ◌∙◌, true, false, ◌||◌, List, [], ◌∷◌, contains, nat_eq, list_eq, list_beq, ◌==◌, Key,
  All, inl, inr, Bool-cases, arith,
}
use desan.Py.Text.{Str}
use desan.CountChecks.{str_lt}
use desan.Summary.{insert_name, sorted_names}

pub str_lt_trans : (a b c : Str) → str_lt a b ≡ true → str_lt b c ≡ true → str_lt a c ≡ true
unfolding str_lt
str_lt_trans a b [] h k = cc
str_lt_trans a [] (z ∷ c) h k = cc
str_lt_trans [] (y ∷ b) (z ∷ c) h k = refl
str_lt_trans (x ∷ a) (y ∷ b) (z ∷ c) h k = ground (arith, str_lt_trans a b c)

str_lt_total : (a b : Str) → (a == b) ≡ false → str_lt a b ≡ false → str_lt b a ≡ true
unfolding str_lt list_beq
str_lt_total [] [] h k = cc
str_lt_total [] (y ∷ b) h k = cc
str_lt_total (x ∷ a) [] h k = refl
str_lt_total (x ∷ a) (y ∷ b) h k = ground (arith, str_lt_total a b)

pub str_lt_irrefl : (a : Str) → str_lt a a ≡ false
unfolding str_lt
str_lt_irrefl [] = refl
str_lt_irrefl (x ∷ a) = ground (arith, str_lt_irrefl a)

-- Each name stands before all that follow it, so that no name is there twice.
abbrev pub IsSorted : List Str → Type 0
IsSorted [] = Unit
IsSorted (x ∷ xs) = All (λ y. str_lt x y ≡ true) xs × IsSorted xs

abbrev pub Below : Str → List Str → Type 0
Below a xs = All (λ y. str_lt a y ≡ true) xs

Below-insert_name :
    (a x : Str) (ys : List Str) → str_lt a x ≡ true → Below a ys → Below a (insert_name x ys)
unfolding insert_name
Below-insert_name a x [] h k = (h, tt)
Below-insert_name a x (y ∷ ys) h (ky, k) = elim (Bool-cases (x == y)) [
  | inl e ↦ rw e (ky, k)
  | inr e ↦ elim (Bool-cases (str_lt x y)) [
    | inl l ↦ rw (e, l) (h, (ky, k))
    | inr l ↦ rw (e, l) (ky, Below-insert_name a x ys h k)
  ]
]

Below-trans : (a b : Str) (xs : List Str) → str_lt a b ≡ true → Below b xs → Below a xs
Below-trans a b [] h k = tt
Below-trans a b (x ∷ xs) h (kx, k) = (str_lt_trans a b x h kx, Below-trans a b xs h k)

insert_name-IsSorted : (x : Str) (ys : List Str) → IsSorted ys → IsSorted (insert_name x ys)
unfolding insert_name
insert_name-IsSorted x [] s = (tt, tt)
insert_name-IsSorted x (y ∷ ys) (b, s) = elim (Bool-cases (x == y)) [
  | inl e ↦ rw e (b, s)
  | inr e ↦ elim (Bool-cases (str_lt x y)) [
    | inl l ↦ rw (e, l) ((l, Below-trans x y ys l b), (b, s))
    | inr l ↦
        rw (e, l) (Below-insert_name y x ys (str_lt_total x y e l) b, insert_name-IsSorted x ys s)
  ]
]

contains-insert_name :
    (b x : Str) (ys : List Str) → contains b (insert_name x ys) ≡ (x == b || contains b ys)
unfolding insert_name contains
contains-insert_name b x [] = refl
contains-insert_name b x (y ∷ ys) = elim (Bool-cases (x == y)) [
  | inl e ↦ rw (e, (Key.same_iff list_eq x y).0 e) (ground arith)
  | inr e ↦ elim (Bool-cases (str_lt x y)) [
    | inl l ↦ rw (e, l)
    | inr l ↦ rw (e, l, contains-insert_name b x ys) (ground arith)
  ]
]

sorted_names-IsSorted : (xs : List Str) → IsSorted (sorted_names xs)
unfolding sorted_names
sorted_names-IsSorted [] = tt
sorted_names-IsSorted (x ∷ xs) = insert_name-IsSorted x (sorted_names xs) (sorted_names-IsSorted xs)

contains-sorted_names : (xs : List Str) (b : Str) → contains b (sorted_names xs) ≡ contains b xs
unfolding sorted_names contains
contains-sorted_names [] b = refl
contains-sorted_names (x ∷ xs) b =
    contains-insert_name b x (sorted_names xs) ∙ rw (contains-sorted_names xs b)

-- The names of the tables come in strictly rising order, and exactly those that occur.
pub sorted_names-IsSorted_set :
    (xs : List Str)
    → IsSorted (sorted_names xs) × ((b : Str) → contains b (sorted_names xs) ≡ contains b xs)
sorted_names-IsSorted_set xs = (sorted_names-IsSorted xs, contains-sorted_names xs)
