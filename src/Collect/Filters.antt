-- ===== src/Collect/Filters.antt =====
-- scripts/collect_all_results.py: the two filters that take whole projects out of the table.
use desan.Prelude.{
  ℕ, ◌+◌, ◌&&◌, not, Option, List, [], ◌∷◌, ◌++◌, Dict, update, contains, length, nat_eq, list_eq,
  option_eq, pair_eq, ◌==◌, leb, if◌then◌else◌,
}
use desan.Py.Text.{Str}
use desan.Py.Table.{Row}
use desan.Py.Float.{FloatOps}
use desan.Collect.{
  Project, project_key, sanitizer_of, is_sanitized, keep_rows, has_negative_overhead_reduction,
}

unfoldable pub removed_negative : Dict Project ℕ → List Project
removed_negative [] = []
removed_negative ((key, count) ∷ counts) =
    let rest = removed_negative counts in if leb 2 count then key ∷ rest else rest

module _ (F : FloatOps) where
  unfoldable pub negative_counts : Dict Project ℕ → List Row → Dict Project ℕ
  unfolding is_sanitized has_negative_overhead_reduction
  negative_counts counts [] = counts
  negative_counts counts (row ∷ rows) =
      negative_counts
        (if is_sanitized row && has_negative_overhead_reduction F row
          then update (project_key row) 0 (λ n. n + 1) counts
          else counts)
        rows

  -- The rows that stay, and the projects that go.
  unfoldable pub filter_projects_with_multiple_negative_reductions :
      List Row → List Row × List Project
  unfolding negative_counts removed_negative keep_rows
  filter_projects_with_multiple_negative_reductions rows =
      let removed = removed_negative (negative_counts [] rows) in
      (keep_rows (λ row. not (contains (project_key row) removed)) rows, removed)

-- `set.add`
unfoldable pub add_member : Option Str → List (Option Str) → List (Option Str)
add_member s xs = if contains s xs then xs else xs ++ (s ∷ [])

unfoldable pub project_sanitizers :
    Dict Project (List (Option Str)) → List Row → Dict Project (List (Option Str))
unfolding is_sanitized add_member
project_sanitizers found [] = found
project_sanitizers found (row ∷ rows) =
    project_sanitizers
      (if is_sanitized row
        then update (project_key row) [] (add_member (sanitizer_of row)) found
        else found)
      rows

unfoldable pub removed_single : Dict Project (List (Option Str)) → List Project
removed_single [] = []
removed_single ((key, found) ∷ projects) =
    let rest = removed_single projects in if length found == 1 then key ∷ rest else rest

unfoldable pub filter_projects_with_single_sanitizer : List Row → List Row × List Project
unfolding project_sanitizers removed_single keep_rows
filter_projects_with_single_sanitizer rows =
    let removed = removed_single (project_sanitizers [] rows) in
    (keep_rows (λ row. not (contains (project_key row) removed)) rows, removed)
