-- ===== src/Summary/Asanmm.antt =====
-- `main` of scripts/opensource_asanmm_summary.py and of scripts/spec_asanmm_summary.py, from what is
-- parsed to the rows of the summary and the lines of the printed table.
use desan.Prelude.{
  ℕ, ◌++◌, ◌||◌, not, Option, List, [], ◌∷◌, Dict, get, keys, nat_eq, list_eq, if◌then◌else◌,
}
use desan.Prelude.Int.{ℤ, pos, ◌-ℤ◌, is_zero}
use desan.Py.Result.{Result, ok, ◌>>=◌}
use desan.Py.Text.{Str, codes}
use desan.Py.Table.{Table}
use desan.Py.File.{FileSystem}
use desan.Py.Float.{FloatOps}
use desan.Overhead.{Overheads, overhead_metrics}
use desan.Records.Asanmm.{AccessCounts, zero_counts, parse_project_records, parse_suite_records}
use desan.Runtime.Spec.{RunResult}
use desan.Runtime.Rsf.{parse_runtime_tables}
use desan.Runtime.Project.{parse_project_runtime, summarize_runtime}
use desan.Summary.{sorted_names, percent_of, fmt_float, fmt_pct, fmt_int, fmt_statuses, table_line}
use desan.Summary.Asan.{Results, run_of, run_of_summary}

-- A row of the summary: the dict with the fields of the .csv file.
pub record ComparisonRow {ℓ} (T : Type ℓ) : Type ℓ where
  pub suite : Str
  pub benchmark : Str
  pub compile_units_base : ℕ
  pub compile_units_asanmm : ℕ
  pub fallback_units_base : ℕ
  pub fallback_units_asanmm : ℕ
  pub original_checks : ℤ
  pub asanmm_checks : ℤ
  pub removed_checks : ℤ
  pub removal_ratio : Option T
  pub original_core_checks : ℤ
  pub asanmm_core_checks : ℤ
  pub core_ratio : Option T
  pub removed_read_checks : ℤ
  pub removed_store_checks : ℤ
  pub native : RunResult T
  pub base : RunResult T
  pub asanmm : RunResult T
  pub overheads : Overheads T
  pub runtime_reduction : Option T

-- `original - after if original or after else 0`
unfoldable pub removed_of : ℤ → ℤ → ℤ
unfolding is_zero ◌-ℤ◌
removed_of original after =
    if not (is_zero original) || not (is_zero after) then original -ℤ after else pos 0

module _ (F : FloatOps) where
  open F use {Float}

  abbrev pub comparison_row :
      Str
      → Str
      → AccessCounts
      → AccessCounts
      → RunResult Float
      → RunResult Float
      → RunResult Float
      → Overheads Float × Option Float
      → ℤ
      → (removal_ratio core_ratio : Option Float) → ComparisonRow Float
  comparison_row suite bench b a native base asanmm metrics removed removal_ratio core_ratio =
      record {
        suite = suite;
        benchmark = bench;
        compile_units_base = b.compile_units;
        compile_units_asanmm = a.compile_units;
        fallback_units_base = b.fallback_units;
        fallback_units_asanmm = a.fallback_units;
        original_checks = b.total_checks;
        asanmm_checks = a.total_checks;
        removed_checks = removed;
        removal_ratio = removal_ratio;
        original_core_checks = b.core_checks;
        asanmm_core_checks = a.core_checks;
        core_ratio = core_ratio;
        removed_read_checks = b.read_checks -ℤ a.read_checks;
        removed_store_checks = b.write_checks -ℤ a.write_checks;
        native = native;
        base = base;
        asanmm = asanmm;
        overheads = metrics.0;
        runtime_reduction = metrics.1;
      }

  -- The row of a benchmark, from the two counts and the three runs.
  unfoldable pub asanmm_row :
      Str
      → Str
      → AccessCounts
      → AccessCounts
      → RunResult Float
      → RunResult Float
      → RunResult Float
      → Result (ComparisonRow Float)
  unfolding overhead_metrics percent_of removed_of
  asanmm_row suite bench b a native base asanmm = do
    metrics ←
        overhead_metrics F native.status base.status asanmm.status native.time base.time asanmm.time
    let removed = removed_of b.total_checks a.total_checks
    removal_ratio ← percent_of F removed b.total_checks
    core_ratio ← percent_of F b.core_checks b.total_checks
    ok (comparison_row suite bench b a native base asanmm metrics removed removal_ratio core_ratio)

  -- `main` of scripts/opensource_asanmm_summary.py
  unfoldable pub project_main :
      FileSystem
      → (Str → Option Table)
      → (suite benchmark base_records asanmm_records runtime_csv : Str)
      → Result (ComparisonRow Float)
  unfolding asanmm_row parse_project_records parse_project_runtime summarize_runtime
  project_main fs csv suite benchmark base_records asanmm_records runtime_csv = do
    base ← parse_project_records fs csv base_records benchmark
    asanmm ← parse_project_records fs csv asanmm_records benchmark
    let runtimes = parse_project_runtime F (csv runtime_csv)
    asanmm_row suite benchmark base asanmm
        (run_of_summary F (summarize_runtime F runtimes (codes "native")))
        (run_of_summary F (summarize_runtime F runtimes (codes "asan-base")))
        (run_of_summary F (summarize_runtime F runtimes (codes "asanmm")))

  -- `for bench in benches`
  unfoldable pub suite_rows :
      Str
      → Dict Str AccessCounts
      → Dict Str AccessCounts
      → Results F
      → Results F
      → Results F
      → List Str
      → Result (List (ComparisonRow Float))
  unfolding asanmm_row
  suite_rows suite base_counts asanmm_counts native base asanmm [] = ok []
  suite_rows suite base_counts asanmm_counts native base asanmm (bench ∷ benches) = do
    row ←
        asanmm_row suite bench (get bench zero_counts base_counts)
          (get bench zero_counts asanmm_counts) (run_of F bench native) (run_of F bench base)
          (run_of F bench asanmm)
    rows ← suite_rows suite base_counts asanmm_counts native base asanmm benches
    ok (row ∷ rows)

  -- `main` of scripts/spec_asanmm_summary.py
  unfoldable pub suite_main :
      FileSystem
      → (Str → Option Table)
      → Str
      → (base_records asanmm_records : List Str) → (native_csv base_csv asanmm_csv : List Table)
      → Result (List (ComparisonRow Float))
  unfolding suite_rows parse_suite_records parse_runtime_tables sorted_names
  suite_main fs csv suite base_records asanmm_records native_csv base_csv asanmm_csv = do
    base_counts ← parse_suite_records fs csv base_records
    asanmm_counts ← parse_suite_records fs csv asanmm_records
    let native = parse_runtime_tables F native_csv
    let base = parse_runtime_tables F base_csv
    let asanmm = parse_runtime_tables F asanmm_csv
    suite_rows suite base_counts asanmm_counts native base asanmm (
        sorted_names
          (keys base_counts ++ keys asanmm_counts ++ keys native ++ keys base ++ keys asanmm))

  -- The line of a row in the printed table.
  unfoldable pub asanmm_line : ComparisonRow Float → Str
  unfolding table_line fmt_int fmt_pct fmt_float fmt_statuses
  asanmm_line row = table_line (
      row.benchmark
      ∷ fmt_int row.original_checks
      ∷ fmt_int row.asanmm_checks
      ∷ fmt_int row.removed_checks
      ∷ fmt_pct F row.removal_ratio
      ∷ fmt_pct F row.core_ratio
      ∷ fmt_int row.removed_read_checks
      ∷ fmt_int row.removed_store_checks
      ∷ fmt_float F row.native.time
      ∷ fmt_float F row.base.time
      ∷ fmt_float F row.asanmm.time
      ∷ fmt_pct F row.overheads.sanitizer_overhead
      ∷ fmt_pct F row.overheads.tool_overhead
      ∷ fmt_pct F row.overheads.overhead_reduction
      ∷ fmt_pct F row.runtime_reduction
      ∷ fmt_statuses row.native.status row.base.status row.asanmm.status
      ∷ [])
