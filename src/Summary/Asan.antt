-- ===== src/Summary/Asan.antt =====
-- `main` of scripts/opensource_summary.py and of scripts/spec_asan_summary.py, from what is parsed to
-- the rows of the summary and the lines of the printed table.
use desan.Prelude.{
  ℕ, ◌++◌, Bool, ◌&&◌, Option, List, [], ◌∷◌, Dict, get, keys, nat_eq, list_eq, ◌==◌, if◌then◌else◌,
}
use desan.Prelude.Int.{ℤ}
use desan.Py.Result.{Result, ok, ◌>>=◌}
use desan.Py.Text.{Str, codes}
use desan.Py.Table.{Table}
use desan.Py.File.{FileSystem}
use desan.Py.Float.{FloatOps}
use desan.Overhead.{Overheads, compute_overhead_metrics}
use desan.Records.Asan.{Counts, zero_counts, parse_project_records, parse_suite_records}
use desan.Runtime.Spec.{RunResult, parse_runtime_csv}
use desan.Runtime.Project.{parse_project_runtime, summarize_runtime}
use desan.Summary.{
  time_of, status_of, sorted_names, percent_of, fmt_float, fmt_pct, fmt_int, fmt_statuses,
  table_line,
}

-- A row of the summary: the dict with the fields of the .csv file.
pub record SummaryRow {ℓ} (T : Type ℓ) : Type ℓ where
  pub suite : Str
  pub benchmark : Str
  pub compile_units : ℕ
  pub fallback_units : ℕ
  pub original_checks : ℤ
  pub core_checks : ℤ
  pub core_ratio : Option T
  pub removed_checks : ℤ
  pub removal_ratio : Option T
  pub core_removal_ratio : Option T
  pub native : RunResult T
  pub before : RunResult T
  pub after : RunResult T
  pub overheads : Overheads T

module _ (F : FloatOps) where
  open F use {Float}

  abbrev pub Results : Type 0
  Results = Dict Str (RunResult Float)

  abbrev pub Row : Type 0
  Row = SummaryRow Float

  abbrev pub summary_row :
      Str
      → Str
      → Counts
      → RunResult Float
      → RunResult Float
      → RunResult Float
      → Overheads Float
      → (core_ratio removal_ratio core_removal_ratio : Option Float) → Row
  summary_row suite bench c native before after metrics core_ratio removal_ratio
        core_removal_ratio =
      record {
        suite = suite;
        benchmark = bench;
        compile_units = c.compile_units;
        fallback_units = c.fallback_units;
        original_checks = c.total_checks;
        core_checks = c.core_checks;
        core_ratio = core_ratio;
        removed_checks = c.removed_checks;
        removal_ratio = removal_ratio;
        core_removal_ratio = core_removal_ratio;
        native = native;
        before = before;
        after = after;
        overheads = metrics;
      }

  -- The row of a benchmark, from its counts and its three runs.
  unfoldable pub asan_row :
      Str → Str → Counts → RunResult Float → RunResult Float → RunResult Float → Result Row
  unfolding compute_overhead_metrics percent_of
  asan_row suite bench c native before after = do
    metrics ←
        compute_overhead_metrics F native.status before.status after.status native.time before.time
          after.time
    core_ratio ← percent_of F c.core_checks c.total_checks
    removal_ratio ← percent_of F c.removed_checks c.total_checks
    core_removal_ratio ← percent_of F c.removed_checks c.core_checks
    ok (
        summary_row suite bench c native before after metrics core_ratio removal_ratio
          core_removal_ratio)

  -- A variant's time and status, as a run.
  abbrev pub run_of_summary : Option Float × Str → RunResult Float
  run_of_summary (time, status) = record { time = time; status = status }

  -- `main` of scripts/opensource_summary.py
  unfoldable pub project_main :
      FileSystem
      → (Str → Option Table)
      → (suite benchmark records runtime_csv before_variant after_variant : Str) → List Str
      → Result Row
  unfolding asan_row parse_project_records parse_project_runtime summarize_runtime
  project_main fs csv suite benchmark records runtime_csv before_variant after_variant
        core_prefixes =
      do
        counts ← parse_project_records fs csv records benchmark core_prefixes
        let runtimes = parse_project_runtime F (csv runtime_csv)
        asan_row suite benchmark counts
            (run_of_summary (summarize_runtime F runtimes (codes "native")))
            (run_of_summary (summarize_runtime F runtimes before_variant))
            (run_of_summary (summarize_runtime F runtimes after_variant))

  -- What a table of runs says of a benchmark, with `NR` and no time for one it does not have.
  abbrev pub run_of : Str → Results → RunResult Float
  run_of bench results = record { time = time_of bench results; status = status_of bench results }

  -- The benchmark was neither compiled nor run.
  unfoldable pub is_absent : Dict Str Counts → Results → Results → Results → Str → Bool
  unfolding status_of
  is_absent counts native before after bench =
      (get bench zero_counts counts).compile_units == 0
      && status_of bench native == codes "NR"
      && status_of bench before == codes "NR"
      && status_of bench after == codes "NR"

  -- `for bench in benches`
  unfoldable pub suite_rows :
      Str → Dict Str Counts → Results → Results → Results → List Str → Result (List Row)
  unfolding is_absent asan_row time_of
  suite_rows suite counts native before after [] = ok []
  suite_rows suite counts native before after (bench ∷ benches) =
      let rest = suite_rows suite counts native before after benches in
      if is_absent counts native before after bench
      then rest
      else asan_row suite bench (get bench zero_counts counts) (run_of bench native)
          (run_of bench before) (run_of bench after)
        >>= λ row. rest >>= λ rows. ok (row ∷ rows)

  -- `sorted(set(counts) | set(native) | set(before) | set(after))`
  unfoldable pub benches_of : Dict Str Counts → Results → Results → Results → List Str
  unfolding sorted_names
  benches_of counts native before after =
      sorted_names (keys counts ++ keys native ++ keys before ++ keys after)

  -- `main` of scripts/spec_asan_summary.py
  unfoldable pub suite_main :
      FileSystem
      → (Str → Option Table)
      → Str
      → List Str
      → List Str
      → (native before after : List Table) → Result (List Row)
  unfolding suite_rows benches_of parse_suite_records parse_runtime_csv
  suite_main fs csv suite core_prefixes records native_csv before_csv after_csv = do
    counts ← parse_suite_records fs csv records core_prefixes
    let native = parse_runtime_csv F native_csv
    let before = parse_runtime_csv F before_csv
    let after = parse_runtime_csv F after_csv
    suite_rows suite counts native before after (benches_of counts native before after)

  -- The line of a row in the printed table.
  unfoldable pub asan_line : Row → Str
  unfolding table_line fmt_int fmt_pct fmt_float fmt_statuses
  asan_line row = table_line (
      row.benchmark
      ∷ fmt_int row.original_checks
      ∷ fmt_int row.core_checks
      ∷ fmt_pct F row.core_ratio
      ∷ fmt_int row.removed_checks
      ∷ fmt_pct F row.removal_ratio
      ∷ fmt_pct F row.core_removal_ratio
      ∷ fmt_float F row.native.time
      ∷ fmt_float F row.before.time
      ∷ fmt_float F row.after.time
      ∷ fmt_pct F row.overheads.sanitizer_overhead
      ∷ fmt_pct F row.overheads.tool_overhead
      ∷ fmt_pct F row.overheads.overhead_reduction
      ∷ fmt_statuses row.native.status row.before.status row.after.status
      ∷ [])
