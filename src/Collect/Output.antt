-- ===== src/Collect/Output.antt =====
-- scripts/collect_all_results.py: what the guards of `main`'s loop let through has a benchmark, and
-- the order of the rows that `main` writes.
use desan.Collect.{strip_or_raise, summary_name, is_excluded_project}
use desan.Prelude.{
  ℕ, some, ◌≡◌, All, All-append, Option-cases, inl, inr, arith, Bool, true, false, List, [], ◌∷◌,
  ◌++◌, if◌then◌else◌,
}
use desan.Py.Result.{ok, bind-eq-ok, ok-injective}
use desan.Py.Text.{Str, codes}
use desan.Py.Table.{Table, Row, dict_reader}
use desan.Py.Float.{FloatOps}
use desan.Records.{field}
use desan.Collect.SortLaws.{InPlace, of_place, sort_rows-InPlace}
use desan.Collect.Sorting.{sort_rows}
use desan.Collect.Filters.{
  filter_projects_with_multiple_negative_reductions, filter_projects_with_single_sanitizer,
}
use desan.Collect.Main.{main, is_kept, result_row, add_summaries, collect_rows}

-- The benchmark of a row is a text.
abbrev pub HasBenchmark : Row → Type 0
HasBenchmark row = (name : Str) × (field (codes "Benchmark") row ≡ some name)

-- The rows that are left of the collected ones by the two filters
abbrev pub filtered : (F : FloatOps) → List Row → List Row
filtered F rows =
    (filter_projects_with_single_sanitizer
      (filter_projects_with_multiple_negative_reductions F rows).0).0

module _ (F : FloatOps) where
  is_kept-HasBenchmark : (row : Row) (kept : Bool) → is_kept F row ≡ ok kept → HasBenchmark row
  unfolding is_kept is_excluded_project strip_or_raise
  is_kept-HasBenchmark row kept h = elim (Option-cases (field (codes "Benchmark") row)) [
    | inl e ↦ absurd (ground (arith, e, h))
    | inr (name, e) ↦ (name, e)
  ]

  add_row-AllNamed :
      (kept : Bool) (rows : List Row) (row : Row)
      → All HasBenchmark rows
      → HasBenchmark row
      → All HasBenchmark (if kept then rows ++ (row ∷ []) else rows)
  add_row-AllNamed true rows row named h = All-append HasBenchmark rows (row ∷ []) named (h, tt)
  add_row-AllNamed false rows row named h = named

  add_summaries-AllNamed :
      (stem sanitizer source : Str) (rows summaries out : List Row)
      → All HasBenchmark rows
      → add_summaries F stem sanitizer source rows summaries ≡ ok out
      → All HasBenchmark out
  unfolding add_summaries
  add_summaries-AllNamed stem sanitizer source rows [] out named h =
      rw (ok-injective rows out h) at named
  add_summaries-AllNamed stem sanitizer source rows (summary ∷ summaries) out named h =
      let row : Row = result_row stem sanitizer source summary in
      let (kept, e, rest) =
        bind-eq-ok (is_kept F row)
          (λ k.
            add_summaries F stem sanitizer source (if k then rows ++ (row ∷ []) else rows)
              summaries)
          out h in
      add_summaries-AllNamed stem sanitizer source (if kept then rows ++ (row ∷ []) else rows)
        summaries out (add_row-AllNamed kept rows row named (is_kept-HasBenchmark row kept e)) rest

  -- Each row that reaches the filters and the sort has a benchmark.
  pub collect_rows-AllNamed :
      (rows out : List Row) (files : List (Str × Table))
      → All HasBenchmark rows
      → collect_rows F rows files ≡ ok out
      → All HasBenchmark out
  unfolding collect_rows
  collect_rows-AllNamed rows out [] named h = rw (ok-injective rows out h) at named
  collect_rows-AllNamed rows out ((name, table) ∷ files) named h =
      elim (Option-cases (summary_name name)) [
        | inl e ↦ collect_rows-AllNamed rows out files named (rw (e, collect_rows) at h)
        | inr ((stem, sanitizer), e) ↦
            let (rows', read, rest) =
              bind-eq-ok (add_summaries F stem sanitizer name rows (dict_reader table))
                (λ rs. collect_rows F rs files) out (rw (e, collect_rows) at h) in
            collect_rows-AllNamed rows' out files
              (add_summaries-AllNamed stem sanitizer name rows (dict_reader table) rows' named read)
              rest
      ]

  -- If `main` returns, then each row that it collected has a benchmark, and the rows that it writes
  -- are ordered by the place of their group (SPEC 2006, SPEC 2017, OpenSSL, Git, open source,
  -- others), then by benchmark, then by the place of their sanitizer (ASan, UBSan, MSan, others);
  -- those that belong to one place are the rows that the two filters leave of the collected ones, in
  -- their order.
  pub main-InPlace :
      (files : List (Str × Table)) (out : List Row)
      → main F files ≡ ok out
      → (rows : List Row) × (collect_rows F [] files ≡ ok rows)
        × All HasBenchmark rows
        × InPlace out
        × ((k : ℕ × (Str × ℕ)) → of_place k out ≡ of_place k (filtered F rows))
  unfolding main
  main-InPlace files out h =
      let (rows, e, done) =
        bind-eq-ok (collect_rows F [] files) (λ rs. ok (sort_rows (filtered F rs))) out h in
      let (ordered, same) = sort_rows-InPlace (filtered F rows) in
      (
        rows,
        e,
        collect_rows-AllNamed [] rows files tt e,
        rw (ok-injective (sort_rows (filtered F rows)) out done) at ordered,
        rw (ok-injective (sort_rows (filtered F rows)) out done) at same,
      )
