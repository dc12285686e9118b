-- ===== src/RemovedAccess/Balance.antt =====
-- Every row of scripts/sanrazor_removed_access_summary.py is computed, and accounts for all the checks
-- that it counts.
use desan.Prelude.{
  ◌≡◌, refl, List, [], ◌∷◌, ◌++◌, Dict, get, lookup, keys, nat_eq, list_eq, pair_eq, ◌==◌, All,
  All-append, Bool-cases, inl, inr, arith,
}
use desan.Prelude.Int.{ℤ, pos, ◌+ℤ◌}
use desan.Py.Result.{ok}
use desan.Py.Text.{Str, codes}
use desan.Py.Float.{FloatOps, IsIeee}
use desan.Summary.{sorted_names}
use desan.RemovedAccess.{
  Access, AccessRow, Total, no_access, add_access, FileResult, key_of, aggregate, benches_at,
  total_row, level_rows, all_rows, main,
}
use desan.RemovedAccess.Order.{sum_of, get-aggregate}
use desan.RemovedAccess.Totals.{KeepsNonzero, RowsOf, add_rows, access_row-eq-ok, bench_rows-eq-ok}
use desan.RemovedAccess.ClassifyLaws.{IsBalanced}

abbrev pub IsBalancedResult : FileResult → Type 0
IsBalancedResult r = IsBalanced r.access

abbrev pub IsBalancedRow : AccessRow → Type 0
IsBalancedRow row = IsBalanced row.access

add_access-IsBalanced : (a b : Access) → IsBalanced a → IsBalanced b → IsBalanced (add_access a b)
add_access-IsBalanced a b h k = omega (arith, h, k)

sum_of-IsBalanced :
    (k : Str × Str) (rs : List FileResult) → All IsBalancedResult rs → IsBalanced (sum_of k rs)
sum_of-IsBalanced k [] h = refl
sum_of-IsBalanced k (r ∷ rs) (hr, h) = elim (Bool-cases (key_of r == k)) [
  | inl e ↦ rw e (add_access-IsBalanced r.access (sum_of k rs) hr (sum_of-IsBalanced k rs h))
  | inr e ↦ rw e (sum_of-IsBalanced k rs h)
]

abbrev Counts : Type 0
Counts = Str × Str → Access

aggregate-IsBalanced :
    (k : Str × Str) (rs : List FileResult)
    → All IsBalancedResult rs
    → IsBalanced (get k no_access (aggregate [] rs))
unfolding lookup
aggregate-IsBalanced k rs h =
    rw (get-aggregate k [] rs)
      (add_access-IsBalanced no_access (sum_of k rs) refl (sum_of-IsBalanced k rs h))

RowsOf-IsBalanced :
    (level : Str) (summary : Dict Str ℤ) (counts : Counts) (benches : List Str)
    (rows : List AccessRow)
    → ((k : Str × Str) → IsBalanced (counts k))
    → RowsOf level summary counts benches rows
    → All IsBalancedRow rows
RowsOf-IsBalanced level summary counts [] [] b h = tt
RowsOf-IsBalanced level summary counts [] (row ∷ rows) b h = elim h [ ]
RowsOf-IsBalanced level summary counts (bench ∷ benches) [] b h = elim h [ ]
RowsOf-IsBalanced level summary counts (bench ∷ benches) (row ∷ rows) b (_, ea, _, h) =
    (rw ea (b (level, bench)), RowsOf-IsBalanced level summary counts benches rows b h)

add_rows-IsBalanced :
    (total : Total) (rows : List AccessRow)
    → IsBalanced total.1
    → All IsBalancedRow rows
    → IsBalanced (add_rows total rows).1
add_rows-IsBalanced total [] h k = h
add_rows-IsBalanced (reported, access) (row ∷ rows) h (kr, k) =
    add_rows-IsBalanced (reported +ℤ row.reported, add_access access row.access) rows
      (add_access-IsBalanced access row.access h kr) k

module _ (F : FloatOps) (of_int : ℤ → F.Float) (ieee : IsIeee F)
    (nonzero : KeepsNonzero F of_int) where
  total_row-eq-ok :
      (level : Str) (benches : List Str) (total : Total)
      → IsBalanced total.1
      → (rows : List AccessRow) × (total_row F of_int level benches total ≡ ok rows)
        × All IsBalancedRow rows
  unfolding total_row
  total_row-eq-ok level [] total h = ([], refl, tt)
  total_row-eq-ok level (bench ∷ benches) (reported, access) h =
      let (row, e, _, ea, _) =
        access_row-eq-ok F of_int ieee nonzero level (codes "TOTAL") reported access in
      (row ∷ [], rw e, (rw ea h, tt))

  level_rows-eq-ok :
      (level : Str) (summary : Dict Str ℤ) (rs : List FileResult)
      → All IsBalancedResult rs
      → (rows : List AccessRow) × (level_rows F of_int level summary (aggregate [] rs) ≡ ok rows)
        × All IsBalancedRow rows
  unfolding level_rows
  level_rows-eq-ok level summary rs h =
      let aggregated = aggregate [] rs in
      let counts : Counts = λ k. get k no_access aggregated in
      let benches = sorted_names (benches_at level (keys aggregated) ++ keys summary) in
      let (rows, e, of) =
        bench_rows-eq-ok F of_int ieee nonzero level summary counts (pos 0, no_access) benches in
      let b =
        RowsOf-IsBalanced level summary counts benches rows (λ k. aggregate-IsBalanced k rs h) of in
      let (last, el, bl) =
        total_row-eq-ok level benches (add_rows (pos 0, no_access) rows)
          (add_rows-IsBalanced (pos 0, no_access) rows refl b) in
      (rows ++ last, rw (e, el), All-append IsBalancedRow rows last b bl)

  all_rows-eq-ok :
      (summary_by_level : Dict Str (Dict Str ℤ)) (levels : List Str) (rs : List FileResult)
      → All IsBalancedResult rs
      → (rows : List AccessRow) × (all_rows F of_int summary_by_level (aggregate [] rs) levels
          ≡ ok rows)
        × All IsBalancedRow rows
  unfolding all_rows
  all_rows-eq-ok summary_by_level [] rs h = ([], refl, tt)
  all_rows-eq-ok summary_by_level (level ∷ levels) rs h =
      let (rows, e, b) = level_rows-eq-ok level (get level [] summary_by_level) rs h in
      let (rest, er, br) = all_rows-eq-ok summary_by_level levels rs h in
      (rows ++ rest, rw (e, er), All-append IsBalancedRow rows rest b br)

  -- With IEEE floats, and with integers other than 0 becoming floats other than 0: if each task's
  -- checks are read, written or unknown, then the rows are computed for all levels, and in each of
  -- them, the totals included, the detected checks are those read, written and unknown.
  pub main-IsBalanced :
      (summary_by_level : Dict Str (Dict Str ℤ)) (levels : List Str) (rs : List FileResult)
      → All IsBalancedResult rs
      → (rows : List AccessRow) × (main F of_int summary_by_level levels rs ≡ ok rows)
        × All IsBalancedRow rows
  unfolding main
  main-IsBalanced = all_rows-eq-ok
