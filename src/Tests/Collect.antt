-- ===== src/Tests/Collect.antt =====
-- The filters, the order and the fields of the collected rows, on the rows of three summaries.
use desan.Prelude.{
  ℕ, none, ◌≡◌, not, some, List, [], ◌∷◌, leb, nat_eq, list_eq, keys, All, refl, contains, map,
}
use desan.Py.Table.{row_get, Row, Table}
use desan.Py.Text.{Str, codes, strip}
use desan.Collect.{project_key, keep_rows, field_names}
use desan.CollectOss.{NoDash, default_projects, default_projects-NoDash}
use desan.Collect.Main.{result_row, main, collect_rows}
use desan.Collect.RowLaws.{keys-result_row}
use desan.Collect.Filters.{
  filter_projects_with_multiple_negative_reductions, filter_projects_with_single_sanitizer,
}
use desan.Collect.SingleLaws.{names_one, sanitizers_in, filter_single-keep_rows}
use desan.Collect.FilterLaws.{negatives, filter_negative-keep_rows}
use desan.Collect.SortLaws.{InPlace, of_place}
use desan.Collect.Output.{HasBenchmark, filtered, main-InPlace}
use desan.Py.Number.{int}
use desan.Py.Result.{Result, ok, err}
use desan.Tests.Floats.{whole}

abbrev row : Str → Str → Str → Row
row benchmark sanitizer reduction =
    (codes "Result Group", some (codes "opensource"))
    ∷ (codes "Benchmark", some benchmark)
    ∷ (codes "Sanitizer", some sanitizer)
    ∷ (codes "Overhead Reduction %", some reduction)
    ∷ []

abbrev rows : List Row
rows =
    row (codes "zlib") (codes "ubsan") (codes "-3")
    ∷ row (codes "zlib") (codes "asan") (codes "-1")
    ∷ row (codes "bzip2") (codes "asan") (codes "12")
    ∷ []

filter_negative-keep_rows_example :
    (filter_projects_with_multiple_negative_reductions whole rows).0
    ≡ keep_rows (λ r. not (leb 2 (negatives whole (project_key r) rows))) rows
filter_negative-keep_rows_example = filter_negative-keep_rows whole rows

-- The summaries of two projects for two sanitizers
abbrev summary_of : Str → Str → Table
summary_of benchmark original =
    (codes "Benchmark"
      ∷ codes "Native Status"
      ∷ codes "Before Status"
      ∷ codes "After Status"
      ∷ codes "Original Checks"
      ∷ [])
    ∷ (benchmark ∷ codes "S" ∷ codes "S" ∷ codes "S" ∷ original ∷ [])
    ∷ []

abbrev files : List (Str × Table)
files =
    (
      codes "zlib-ubsan-after-read-check-elimination-summary.csv",
      summary_of (codes "zlib") (codes "9"),
    )
    ∷ (
      codes "zlib-asan-after-read-check-elimination-summary.csv",
      summary_of (codes "zlib") (codes "7"),
    )
    ∷ (
      codes "git-asan-after-read-check-elimination-summary.csv",
      summary_of (codes "git") (codes "5"),
    )
    ∷ (
      codes "git-msan-after-read-check-elimination-summary.csv",
      summary_of (codes "git") (codes "3"),
    )
    ∷ []

abbrev rows_or_none : Result (List Row) → List Row
rows_or_none (ok rows) = rows
rows_or_none (err e) = []

abbrev written : List Row
written = rows_or_none (main whole files)

main-InPlace_example :
    (rows : List Row) × (collect_rows whole [] files ≡ ok rows)
    × All HasBenchmark rows
    × InPlace written
    × ((k : ℕ × (Str × ℕ)) → of_place k written ≡ of_place k (filtered whole rows))
unfolding main row_get contains strip
main-InPlace_example = main-InPlace whole files written refl

written_test :
    map (row_get (codes "Source Summary") none) written
    ≡ map some (
        codes "git-asan-after-read-check-elimination-summary.csv"
        ∷ codes "git-msan-after-read-check-elimination-summary.csv"
        ∷ codes "zlib-asan-after-read-check-elimination-summary.csv"
        ∷ codes "zlib-ubsan-after-read-check-elimination-summary.csv"
        ∷ [])
unfolding main row_get contains strip int
written_test = refl

filter_single-keep_rows_example :
    (filter_projects_with_single_sanitizer rows).0
    ≡ keep_rows (λ r. not (names_one (sanitizers_in (project_key r) rows))) rows
filter_single-keep_rows_example = filter_single-keep_rows rows

keys-result_row_example :
    keys (
      result_row
        (codes "zlib")
        (codes "asan")
        (codes "zlib-asan-summary.csv")
        ((codes "Benchmark", some (codes "zlib")) ∷ (codes "Notes", none) ∷ []))
    ≡ field_names
keys-result_row_example =
    keys-result_row (codes "zlib") (codes "asan") (codes "zlib-asan-summary.csv")
      ((codes "Benchmark", some (codes "zlib")) ∷ (codes "Notes", none) ∷ [])

default_projects-NoDash_example :
    All NoDash
      (default_projects (codes "json-c-asan-after-read-check-elimination-summary.csv" ∷ []))
default_projects-NoDash_example =
    default_projects-NoDash (codes "json-c-asan-after-read-check-elimination-summary.csv" ∷ [])
