-- ===== src/Sanrazor/Summary.antt =====
-- `main` of scripts/spec_sanrazor_summary.py, from what is parsed to the rows of the summary and the
-- lines of the printed table.
use desan.Prelude.{◌++◌, Option, List, [], ◌∷◌, Dict, get, keys, nat_eq, list_eq}
use desan.Prelude.Int.{ℤ, pos, ◌-ℤ◌, pos_part}
use desan.Py.Result.{Result, ok, ◌>>=◌}
use desan.Py.Text.{Str}
use desan.Py.Float.{FloatOps}
use desan.Overhead.{Overheads, overhead_metrics}
use desan.Runtime.Spec.{RunResult}
use desan.Runtime.Rsf.{Source, parse_runtime_sources}
use desan.Sanrazor.{CheckTotals, zero_totals, parse_checks}
use desan.Summary.{sorted_names, percent_of, fmt_float, fmt_pct, fmt_int, fmt_statuses, table_line}
use desan.Summary.Asan.{Results, run_of}

-- A row of the summary: the dict with the fields of the .csv file.
pub record SanrazorRow {ℓ} (T : Type ℓ) : Type ℓ where
  pub suite : Str
  pub benchmark : Str
  pub level : Str
  pub original_checks : ℤ
  pub sanrazor_checks : ℤ
  pub removed_checks : ℤ
  pub removal_ratio : Option T
  pub original_check_cost : ℤ
  pub sanrazor_check_cost : ℤ
  pub removed_check_cost : ℤ
  pub cost_reduction : Option T
  pub native : RunResult T
  pub base : RunResult T
  pub sanrazor : RunResult T
  pub overheads : Overheads T
  pub runtime_reduction : Option T

-- `max(0, original - remaining)`
unfoldable pub removed_of : ℤ → ℤ → ℤ
unfolding ◌-ℤ◌
removed_of original remaining = pos (pos_part (original -ℤ remaining))

module _ (F : FloatOps) where
  open F use {Float}

  abbrev pub row_of :
      (suite bench level : Str)
      → CheckTotals
      → RunResult Float
      → RunResult Float
      → RunResult Float
      → Overheads Float × Option Float
      → (removed removed_cost : ℤ) → (removal_ratio cost_reduction : Option Float)
      → SanrazorRow Float
  row_of suite bench level c native base sanrazor metrics removed removed_cost removal_ratio
        cost_reduction =
      record {
        suite = suite;
        benchmark = bench;
        level = level;
        original_checks = c.original;
        sanrazor_checks = c.remaining;
        removed_checks = removed;
        removal_ratio = removal_ratio;
        original_check_cost = c.original_cost;
        sanrazor_check_cost = c.remaining_cost;
        removed_check_cost = removed_cost;
        cost_reduction = cost_reduction;
        native = native;
        base = base;
        sanrazor = sanrazor;
        overheads = metrics.0;
        runtime_reduction = metrics.1;
      }

  -- The row of a benchmark, from its totals and its three runs.
  unfoldable pub sanrazor_row :
      (suite bench level : Str)
      → CheckTotals
      → RunResult Float
      → RunResult Float
      → RunResult Float
      → Result (SanrazorRow Float)
  unfolding overhead_metrics percent_of removed_of
  sanrazor_row suite bench level c native base sanrazor = do
    let removed = removed_of c.original c.remaining
    let removed_cost = removed_of c.original_cost c.remaining_cost
    metrics ←
        overhead_metrics F native.status base.status sanrazor.status native.time base.time
          sanrazor.time
    removal_ratio ← percent_of F removed c.original
    cost_reduction ← percent_of F removed_cost c.original_cost
    ok (
        row_of suite bench level c native base sanrazor metrics removed removed_cost removal_ratio
          cost_reduction)

  -- `for bench in benches`
  unfoldable pub sanrazor_rows :
      (suite level : Str)
      → Dict Str CheckTotals
      → Results F
      → Results F
      → Results F
      → List Str
      → Result (List (SanrazorRow Float))
  unfolding sanrazor_row
  sanrazor_rows suite level checks native base sanrazor [] = ok []
  sanrazor_rows suite level checks native base sanrazor (bench ∷ benches) = do
    row ←
        sanrazor_row suite bench level (get bench zero_totals checks) (run_of F bench native)
          (run_of F bench base) (run_of F bench sanrazor)
    rows ← sanrazor_rows suite level checks native base sanrazor benches
    ok (row ∷ rows)

  unfoldable pub main :
      (suite level : Str)
      → List (List Str × Option (List Str))
      → (native_csv base_csv sanrazor_csv : List (Source F)) → Result (List (SanrazorRow Float))
  unfolding sanrazor_rows parse_checks parse_runtime_sources sorted_names
  main suite level check_glob native_csv base_csv sanrazor_csv = do
    let checks = parse_checks [] check_glob
    let native = parse_runtime_sources F [] native_csv
    let base = parse_runtime_sources F [] base_csv
    let sanrazor = parse_runtime_sources F [] sanrazor_csv
    sanrazor_rows suite level checks native base sanrazor
        (sorted_names (keys checks ++ keys native ++ keys base ++ keys sanrazor))

  -- The line of a row in the printed table.
  unfoldable pub sanrazor_line : SanrazorRow Float → Str
  unfolding table_line fmt_int fmt_pct fmt_float fmt_statuses
  sanrazor_line row = table_line (
      row.benchmark
      ∷ fmt_int row.original_checks
      ∷ fmt_int row.sanrazor_checks
      ∷ fmt_int row.removed_checks
      ∷ fmt_pct F row.removal_ratio
      ∷ fmt_pct F row.cost_reduction
      ∷ fmt_float F row.native.time
      ∷ fmt_float F row.base.time
      ∷ fmt_float F row.sanrazor.time
      ∷ fmt_pct F row.overheads.sanitizer_overhead
      ∷ fmt_pct F row.overheads.tool_overhead
      ∷ fmt_pct F row.overheads.overhead_reduction
      ∷ fmt_pct F row.runtime_reduction
      ∷ fmt_statuses row.native.status row.base.status row.sanrazor.status
      ∷ [])
