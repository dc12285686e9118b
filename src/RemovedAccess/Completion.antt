-- ===== src/RemovedAccess/Completion.antt =====
-- The rows do not depend on the order in which the tasks complete.
use mathlib.Core.List.{Permᴰ}
use desan.Prelude.{
  ◌≡◌, refl, sym, ap, ◌∙◌, ◌++◌, ◌||◌, true, false, List, [], ◌∷◌, Dict, get, keys, lookup,
  contains, Key, nat_eq, list_eq, pair_eq, ◌==◌, Bool-cases, inl, inr, arith,
}
use desan.Prelude.Int.{ℤ, pos}
use desan.Py.Result.{Result, ok, ◌>>=◌}
use desan.Py.Text.{Str}
use desan.Py.Float.{FloatOps}
use desan.CountChecks.{str_lt}
use desan.Summary.{sorted_names}
use desan.Summary.Names.{IsSorted, Below, sorted_names-IsSorted_set, str_lt_irrefl, str_lt_trans}
use desan.RemovedAccess.{
  Access, AccessRow, no_access, add_access, FileResult, key_of, aggregate, benches_at, bench_rows,
  total_row, level_rows, all_rows, main,
}
use desan.RemovedAccess.Order.{
  sum_of, add_access_comm, get-aggregate, benches_of, contains-benches_at-aggregate,
  contains-append, Below-contains,
}

same_self : (x : Str) → (x == x) ≡ true
same_self x = (Key.same_iff list_eq x x).1 refl

contains-head : (x : Str) (xs : List Str) → contains x (x ∷ xs) ≡ true
unfolding contains
contains-head x xs = rw (same_self x)

-- The head of a sorted list is not above a member.
head-Below :
    (x y : Str) (ys : List Str)
    → Below y ys
    → contains x (y ∷ ys) ≡ true
    → (y == x) ≡ false
    → str_lt y x ≡ true
unfolding contains
head-Below x y ys u c e = Below-contains y x ys u (rw e at c)

heads-eq :
    (x y : Str) (xs ys : List Str)
    → Below x xs
    → Below y ys
    → contains x (y ∷ ys) ≡ true
    → contains y (x ∷ xs) ≡ true
    → x ≡ y
heads-eq x y xs ys u v c d = elim (Bool-cases (x == y)) [
  | inl e ↦ (Key.same_iff list_eq x y).0 e
  | inr e ↦ elim (Bool-cases (y == x)) [
    | inl f ↦ sym ((Key.same_iff list_eq y x).0 f)
    | inr f ↦
        let loop = str_lt_trans x y x (head-Below y x xs u d e) (head-Below x y ys v c f) in
        cc (loop, str_lt_irrefl x)
  ]
]

contains-above : (x : Str) (xs : List Str) → Below x xs → contains x xs ≡ false
contains-above x xs u = elim (Bool-cases (contains x xs)) [
  | inl c ↦ cc (Below-contains x x xs u c, str_lt_irrefl x)
  | inr c ↦ c
]

tails-contain :
    (x b : Str) (xs ys : List Str)
    → Below x xs
    → Below x ys
    → contains b (x ∷ xs) ≡ contains b (x ∷ ys)
    → contains b xs ≡ contains b ys
unfolding contains
tails-contain x b xs ys u v h = elim (Bool-cases (x == b)) [
  | inl e ↦
      rw (sym ((Key.same_iff list_eq x b).0 e))
        (contains-above x xs u ∙ sym (contains-above x ys v))
  | inr e ↦ rw e at h
]

-- A strictly rising list is determined by its members.
sorted-eq :
    (xs ys : List Str)
    → IsSorted xs
    → IsSorted ys
    → ((b : Str) → contains b xs ≡ contains b ys)
    → xs ≡ ys
unfolding contains
sorted-eq [] [] s t h = refl
sorted-eq [] (y ∷ ys) s t h = cc (h y, contains-head y ys)
sorted-eq (x ∷ xs) [] s t h = cc (h x, contains-head x xs)
sorted-eq (x ∷ xs) (y ∷ ys) (u, s) (v, t) h =
    let e = heads-eq x y xs ys u v (sym (h x) ∙ contains-head x xs) (h y ∙ contains-head y ys) in
    rw (sym e) (
      ap (λ zs. x ∷ zs)
        (sorted-eq xs ys s t
          (λ b. tails-contain x b xs ys u (rw (sym e) at v) (rw (sym e) at h b))))

sum_of_perm : (k : Str × Str) (rs rs' : List FileResult) → Permᴰ rs rs' → sum_of k rs ≡ sum_of k rs'
sum_of_perm k _ _ Permᴰ.nil = refl
sum_of_perm k (r ∷ rs) (r' ∷ rs') (Permᴰ.cons e p) = rw (e, sum_of_perm k rs rs' p)
sum_of_perm k (a ∷ b ∷ rs) (b' ∷ a' ∷ _) (Permᴰ.swap e f) =
    rw (sym e, sym f)
      (elim (Bool-cases (key_of a == k)) [
        | inl g ↦ elim (Bool-cases (key_of b == k)) [
          | inl h ↦ rw (g, h) (add_access_comm a.access b.access (sum_of k rs))
          | inr h ↦ rw (g, h)
        ]
        | inr g ↦ rw g
      ])
sum_of_perm k rs rs'' (Permᴰ.trans {l₂ = rs'} p q) =
    sum_of_perm k rs rs' p ∙ sum_of_perm k rs' rs'' q

benches_of_perm :
    (b level : Str) (rs rs' : List FileResult)
    → Permᴰ rs rs'
    → contains b (benches_of level rs) ≡ contains b (benches_of level rs')
unfolding contains
benches_of_perm b level _ _ Permᴰ.nil = refl
benches_of_perm b level (r ∷ rs) (r' ∷ rs') (Permᴰ.cons e p) =
    rw (sym e) (elim (Bool-cases (r.level == level)) [
      | inl g ↦ rw (g, benches_of_perm b level rs rs' p)
      | inr g ↦ rw (g, benches_of_perm b level rs rs' p)
    ])
benches_of_perm b level (r ∷ s ∷ rs) (s' ∷ r' ∷ _) (Permᴰ.swap e f) =
    rw (sym e, sym f)
      (elim (Bool-cases (r.level == level)) [
        | inl g ↦ elim (Bool-cases (s.level == level)) [
          | inl h ↦ rw (g, h) (ground arith)
          | inr h ↦ rw (g, h)
        ]
        | inr g ↦ rw g
      ])
benches_of_perm b level rs rs'' (Permᴰ.trans {l₂ = rs'} p q) =
    benches_of_perm b level rs rs' p ∙ benches_of_perm b level rs' rs'' q

counts_of : List FileResult → Str × Str → Access
unfolding aggregate lookup
counts_of rs k = get k no_access (aggregate [] rs)

counts_of_perm : (rs rs' : List FileResult) → Permᴰ rs rs' → counts_of rs ≡ counts_of rs'
unfolding counts_of lookup
counts_of_perm rs rs' p = λ i k.
    (get-aggregate k [] rs
        ∙ ap (add_access no_access) (sum_of_perm k rs rs' p)
        ∙ sym (get-aggregate k [] rs'))
      i

names_of : Str → Dict Str ℤ → List FileResult → List Str
unfolding aggregate benches_at keys sorted_names
names_of level summary rs = sorted_names (benches_at level (keys (aggregate [] rs)) ++ keys summary)

names_of_perm :
    (level : Str) (summary : Dict Str ℤ) (rs rs' : List FileResult)
    → Permᴰ rs rs'
    → names_of level summary rs ≡ names_of level summary rs'
unfolding names_of contains keys benches_at
names_of_perm level summary rs rs' p =
    let one =
      sorted_names-IsSorted_set (benches_at level (keys (aggregate [] rs)) ++ keys summary) in
    let two =
      sorted_names-IsSorted_set (benches_at level (keys (aggregate [] rs')) ++ keys summary) in
    sorted-eq _ _ one.0 two.0 (λ b.
      one.1 b
      ∙ contains-append b (benches_at level (keys (aggregate [] rs))) (keys summary)
      ∙ ap (λ c. c || contains b (keys summary))
          (contains-benches_at-aggregate b level [] rs
            ∙ benches_of_perm b level rs rs' p
            ∙ sym (contains-benches_at-aggregate b level [] rs'))
      ∙ sym (contains-append b (benches_at level (keys (aggregate [] rs'))) (keys summary))
      ∙ sym (two.1 b))

module _ (F : FloatOps) (of_int : ℤ → F.Float) where
  rows_from : Str → Dict Str ℤ → (Str × Str → Access) → List Str → Result (List AccessRow)
  unfolding bench_rows total_row
  rows_from level summary counts benches = do
    rows ← bench_rows F of_int level summary counts (pos 0, no_access) benches
    last ← total_row F of_int level benches rows.1
    ok (rows.0 ++ last)

  all_rows_perm :
      (summary_by_level : Dict Str (Dict Str ℤ)) (levels : List Str) (rs rs' : List FileResult)
      → Permᴰ rs rs'
      → all_rows F of_int summary_by_level (aggregate [] rs) levels
        ≡ all_rows F of_int summary_by_level (aggregate [] rs') levels
  unfolding all_rows level_rows rows_from names_of counts_of
  all_rows_perm summary_by_level [] rs rs' p = refl
  all_rows_perm summary_by_level (level ∷ levels) rs rs' p = λ i. do
    rows ←
        rows_from level (get level [] summary_by_level) (counts_of_perm rs rs' p i)
          (names_of_perm level (get level [] summary_by_level) rs rs' p i)
    rest ← all_rows_perm summary_by_level levels rs rs' p i
    ok (rows ++ rest)

  -- The tasks may complete in any order: for every order of the same results the rows are the same, or
  -- the same exception is raised.
  pub main_perm :
      (summary_by_level : Dict Str (Dict Str ℤ)) (levels : List Str) (rs rs' : List FileResult)
      → Permᴰ rs rs'
      → main F of_int summary_by_level levels rs ≡ main F of_int summary_by_level levels rs'
  unfolding main
  main_perm summary_by_level levels rs rs' p = all_rows_perm summary_by_level levels rs rs' p
