-- ===== src/Collect/Main.antt =====
-- scripts/collect_all_results.py: `main`, from the summaries to the rows of the table.
use desan.Collect.{
  Option, field_names, result_group, summary_name, is_successful_runtime, has_inserted_checks,
  is_excluded_project,
}
use desan.Prelude.{
  Bool, false, none, some, List, [], ◌∷◌, ◌++◌, lookup, insert, list_eq, nat_eq, if◌then◌else◌,
}
use desan.Py.Result.{Result, ok, ◌>>=◌}
use desan.Py.Text.{Str, codes}
use desan.Py.Table.{Table, Row, dict_reader, row_get}
use desan.Py.Float.{FloatOps}
use desan.Collect.Filters.{
  filter_projects_with_multiple_negative_reductions, filter_projects_with_single_sanitizer,
}
use desan.Collect.Sorting.{sort_rows}

-- `{name: "" for name in FIELDNAMES}`
unfoldable pub empty_row : List Str → Row
empty_row [] = []
empty_row (name ∷ names) = (name, some []) ∷ empty_row names

-- `if field in summary: row[field] = summary[field]`, for `summary`'s entry of the field
unfoldable pub copy_field : Str → Option (Option Str) → Row → Row
copy_field name none row = row
copy_field name (some value) row = insert name value row

-- The same for each of the fields.
unfoldable pub copy_fields : List Str → Row → Row → Row
unfolding copy_field
copy_fields [] summary row = row
copy_fields (name ∷ names) summary row =
    copy_fields names summary (copy_field name (lookup name summary) row)

unfoldable pub result_row : Str → Str → Str → Row → Row
unfolding empty_row copy_fields result_group
result_row stem sanitizer source summary =
    let suite = row_get (codes "Suite") (some []) summary in
    let benchmark = row_get (codes "Benchmark") (some []) summary in
    copy_fields field_names summary (
      insert (codes "Source Summary") (some source) (
        insert (codes "Sanitizer") (some sanitizer) (
          insert (codes "Benchmark") benchmark (
            insert (codes "Suite") suite (
              insert (codes "Result Group") (some (result_group stem suite))
                (empty_row field_names))))))

module _ (F : FloatOps) where
  -- The three guards of the loop, in their order.
  unfoldable pub is_kept : Row → Result Bool
  unfolding is_excluded_project is_successful_runtime has_inserted_checks
  is_kept row = do
    excluded ← is_excluded_project row
    successful ← (if excluded then ok false else is_successful_runtime row)
    ok (if successful then has_inserted_checks F row else false)

  unfoldable pub add_summaries : Str → Str → Str → List Row → List Row → Result (List Row)
  unfolding is_kept result_row
  add_summaries stem sanitizer source rows [] = ok rows
  add_summaries stem sanitizer source rows (summary ∷ summaries) = do
    kept ← is_kept (result_row stem sanitizer source summary)
    add_summaries stem sanitizer source
        (if kept then rows ++ (result_row stem sanitizer source summary ∷ []) else rows) summaries

  -- The files of `sorted(out_dir.glob("*-summary.csv"))`, with their names.
  unfoldable pub collect_rows : List Row → List (Str × Table) → Result (List Row)
  unfolding summary_name add_summaries dict_reader
  collect_rows rows [] = ok rows
  collect_rows rows ((name, table) ∷ files) = elim (summary_name name) [
    | none ↦ collect_rows rows files
    | some (stem, sanitizer) ↦
        add_summaries stem sanitizer name rows (dict_reader table) >>= λ rows'.
        collect_rows rows' files
  ]

  -- The rows that `main` writes.
  unfoldable pub main : List (Str × Table) → Result (List Row)
  unfolding collect_rows filter_projects_with_multiple_negative_reductions
      filter_projects_with_single_sanitizer sort_rows
  main files = do
    rows ← collect_rows [] files
    let several = (filter_projects_with_multiple_negative_reductions F rows).0
    ok (sort_rows (filter_projects_with_single_sanitizer several).0)
