-- ===== src/RemovedAccess/Order.antt =====
-- What the sums of a level and a benchmark are, and which names occur at a level.
use desan.Prelude.{
  ◌≡◌, refl, sym, ◌∙◌, ◌++◌, ◌||◌, ◌&&◌, true, List, [], ◌∷◌, get, insert, update, keys, contains,
  lookup-insert, Key, nat_eq, list_eq, pair_eq, ◌==◌, Bool-cases, inl, inr, arith, if◌then◌else◌,
}
use desan.Py.Text.{Str}
use desan.CountChecks.{str_lt}
use desan.Summary.Names.{Below}
use desan.RemovedAccess.{
  Access, no_access, add_access, FileResult, key_of, Aggregated, aggregate, benches_at,
}

-- The sum of the results of a level and a benchmark.
abbrev pub sum_of : Str × Str → List FileResult → Access
sum_of k [] = no_access
sum_of k (r ∷ rs) =
    let rest = sum_of k rs in if key_of r == k then add_access r.access rest else rest

access-ext :
    (a b : Access)
    → a.detected ≡ b.detected
    → a.read ≡ b.read
    → a.write ≡ b.write
    → a.unknown ≡ b.unknown
    → a ≡ b
access-ext a b d r w u = cc

pub add_access_zero : (a : Access) → add_access a no_access ≡ a
add_access_zero a =
    access-ext (add_access a no_access) a (omega arith) (omega arith) (omega arith) (omega arith)

add_access_assoc : (a b c : Access) → add_access (add_access a b) c ≡ add_access a (add_access b c)
add_access_assoc a b c =
    access-ext (add_access (add_access a b) c) (add_access a (add_access b c)) (omega arith)
      (omega arith) (omega arith) (omega arith)

pub add_access_comm :
    (a b c : Access) → add_access a (add_access b c) ≡ add_access b (add_access a c)
add_access_comm a b c =
    access-ext (add_access a (add_access b c)) (add_access b (add_access a c)) (omega arith)
      (omega arith) (omega arith) (omega arith)

pub get-aggregate :
    (k : Str × Str) (d : Aggregated) (rs : List FileResult)
    → get k no_access (aggregate d rs) ≡ add_access (get k no_access d) (sum_of k rs)
unfolding aggregate
get-aggregate k d [] = sym (add_access_zero (get k no_access d))
get-aggregate k d (r ∷ rs) =
    get-aggregate k (update (key_of r) no_access (λ a. add_access a r.access) d) rs
    ∙ elim (Bool-cases (key_of r == k)) [
      | inl e ↦
          rw (lookup-insert, e, (Key.same_iff pair_eq (key_of r) k).0 e)
            (add_access_assoc (get k no_access d) r.access (sum_of k rs))
      | inr e ↦ rw (lookup-insert, e)
    ]

-- The benches of the results of a level.
abbrev pub benches_of : Str → List FileResult → List Str
benches_of level [] = []
benches_of level (r ∷ rs) =
    let rest = benches_of level rs in if r.level == level then r.bench ∷ rest else rest

contains-benches_at-insert :
    (b level : Str) (k : Str × Str) (a : Access) (d : Aggregated)
    → contains b (benches_at level (keys (insert k a d)))
      ≡ ((k.0 == level && k.1 == b) || contains b (benches_at level (keys d)))
unfolding contains benches_at keys insert
contains-benches_at-insert b level (l, n) a [] = elim (Bool-cases (l == level)) [
  | inl e ↦ rw e
  | inr e ↦ rw e
]
contains-benches_at-insert b level (l, n) a (((l', n'), v) ∷ d) =
    let h = contains-benches_at-insert b level (l, n) a d in
    elim (Bool-cases (l' == l)) [
      | inl e ↦ elim (Bool-cases (n' == n)) [
        | inl f ↦
            rw (e, f, sym ((Key.same_iff list_eq l' l).0 e), sym ((Key.same_iff list_eq n' n).0 f))
              (elim (Bool-cases (l' == level)) [ inl g ↦ rw g (ground arith) | inr g ↦ rw g ])
        | inr f ↦ elim (Bool-cases (l' == level)) [
          | inl g ↦ rw (e, f, g, h) (ground arith)
          | inr g ↦ rw (e, f, g) h
        ]
      ]
      | inr e ↦ elim (Bool-cases (l' == level)) [
        | inl g ↦ rw (e, g, h) (ground arith)
        | inr g ↦ rw (e, g) h
      ]
    ]

pub contains-benches_at-aggregate :
    (b level : Str) (d : Aggregated) (rs : List FileResult)
    → contains b (benches_at level (keys (aggregate d rs)))
      ≡ (contains b (benches_at level (keys d)) || contains b (benches_of level rs))
unfolding aggregate contains
contains-benches_at-aggregate b level d [] = ground arith
contains-benches_at-aggregate b level d (r ∷ rs) =
    contains-benches_at-aggregate b level
      (update (key_of r) no_access (λ a. add_access a r.access) d) rs
    ∙ elim (Bool-cases (r.level == level)) [
      | inl e ↦ rw (contains-benches_at-insert, e) (ground arith)
      | inr e ↦ rw (contains-benches_at-insert, e) (ground arith)
    ]

module _ {ℓ} {A : Type ℓ} ⦃e : Key A⦄ where
  pub contains-append :
      (b : A) (xs ys : List A) → contains b (xs ++ ys) ≡ (contains b xs || contains b ys)
  unfolding contains
  contains-append b [] ys = refl
  contains-append b (x ∷ xs) ys = rw (contains-append b xs ys) (ground arith)

pub Below-contains :
    (a b : Str) (xs : List Str) → Below a xs → contains b xs ≡ true → str_lt a b ≡ true
unfolding contains
Below-contains a b [] h c = cc
Below-contains a b (x ∷ xs) (hx, h) c = elim (Bool-cases (x == b)) [
  | inl e ↦ rw (sym ((Key.same_iff list_eq x b).0 e)) hx
  | inr e ↦ Below-contains a b xs h (rw e at c)
]
