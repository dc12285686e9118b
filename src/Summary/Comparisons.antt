-- ===== src/Summary/Comparisons.antt =====
-- The comparison summaries, of ASAN-- and of SanRazor, are computed, with a row for each benchmark.
use desan.Prelude.{
  ◌⊎◌, nat_eq, list_eq, ◌≡◌, ◌≢◌, ◌↔◌, refl, false, none, List, [], ◌∷◌, Dict, get, arith,
}
use desan.Prelude.Int.{ℤ, pos, is_zero, ◌-ℤ◌, ◌≤ℤ◌}
use desan.Py.Result.{ok}
use desan.Py.Text.{Str}
use desan.Py.Float.{FloatOps, IsIeee}
use desan.Overhead.Laws.{overhead_metrics-eq-ok}
use desan.Records.Asanmm.{AccessCounts, zero_counts}
use desan.Runtime.Spec.{RunResult}
use desan.Summary.Asan.{Results, run_of}
use desan.Summary.Asanmm.{ComparisonRow, asanmm_row, comparison_row, suite_rows, removed_of}
use desan.Summary.Totality.{percent_of-eq-ok, Matches}
use desan.Sanrazor.{CheckTotals, zero_totals}
use desan.Sanrazor.Summary.{SanrazorRow, sanrazor_row, row_of, sanrazor_rows}
use desan.Sanrazor.Summary as Razor

-- The test for two zeros makes no difference.
removed_of-sub : (a b : ℤ) → removed_of a b ≡ a -ℤ b
unfolding removed_of is_zero ◌-ℤ◌
removed_of-sub a b = ground arith

-- The larger of 0 and a difference
abbrev pub IsSurplus : ℤ → ℤ → ℤ → Type 0
IsSurplus a b m = (pos 0 ≤ℤ m) × (a -ℤ b ≤ℤ m) × ((m ≡ a -ℤ b) ⊎ (m ≡ pos 0))

removed_of-IsSurplus : (a b : ℤ) → IsSurplus a b (Razor.removed_of a b)
unfolding Razor.removed_of ◌-ℤ◌
removed_of-IsSurplus a b = (ground arith, ground arith, ground arith)

module _ (F : FloatOps) where
  open F use {Float}

  -- What a row of the comparison says of the two counts.
  pub record Compares (bench : Str) (b a : AccessCounts) (row : ComparisonRow Float) : Type 0 where
    pub named : row.benchmark ≡ bench
    pub removed : row.removed_checks ≡ b.total_checks -ℤ a.total_checks
    pub reads : row.removed_read_checks ≡ b.read_checks -ℤ a.read_checks
    pub stores : row.removed_store_checks ≡ b.write_checks -ℤ a.write_checks
    pub removal_known : (row.removal_ratio ≢ none) ↔ (is_zero b.total_checks ≡ false)
    pub core_known : (row.core_ratio ≢ none) ↔ (is_zero b.total_checks ≡ false)

  -- What a row says of the totals of the check files.
  pub record Razes (bench : Str) (c : CheckTotals) (row : SanrazorRow Float) : Type 0 where
    pub named : row.benchmark ≡ bench
    pub removed : IsSurplus c.original c.remaining row.removed_checks
    pub cost_removed : IsSurplus c.original_cost c.remaining_cost row.removed_check_cost
    pub removal_known : (row.removal_ratio ≢ none) ↔ (is_zero c.original ≡ false)
    pub cost_known : (row.cost_reduction ≢ none) ↔ (is_zero c.original_cost ≡ false)

module _ (F : FloatOps) (ieee : IsIeee F) where
  open F use {Float}

  asanmm_row-eq-ok :
      (suite bench : Str) (b a : AccessCounts) (native base asanmm : RunResult Float)
      → (row : ComparisonRow Float) × (asanmm_row F suite bench b a native base asanmm ≡ ok row)
        × Compares F bench b a row
  unfolding asanmm_row
  asanmm_row-eq-ok suite bench b a native base asanmm =
      let (m, r, em, _, _) =
        overhead_metrics-eq-ok F ieee native.status base.status asanmm.status native.time base.time
          asanmm.time in
      let (r1, e1, k1) =
        percent_of-eq-ok F ieee (removed_of b.total_checks a.total_checks) b.total_checks in
      let (r2, e2, k2) = percent_of-eq-ok F ieee b.core_checks b.total_checks in
      (
        comparison_row F suite bench b a native base asanmm (m, r)
            (removed_of b.total_checks a.total_checks) r1 r2,
        rw (em, e1, e2),
        record {
          named = refl;
          removed = removed_of-sub b.total_checks a.total_checks;
          reads = refl;
          stores = refl;
          removal_known = k1;
          core_known = k2;
        },
      )

  -- With IEEE floats the loop of scripts/spec_asanmm_summary.py ends without an exception, with one
  -- row for each benchmark, in order. The removed checks are the difference of the two totals, also
  -- where both are 0 or where more checks are left than there were, and the ratios are known
  -- exactly where the original total is not 0.
  pub asanmm_rows-eq-ok :
      (suite : Str) (base_counts asanmm_counts : Dict Str AccessCounts)
      (native base asanmm : Results F) (benches : List Str)
      → (rows : List (ComparisonRow Float)) × (suite_rows F suite base_counts asanmm_counts native
            base asanmm benches
          ≡ ok rows)
        × Matches
            (λ b. Compares F b (get b zero_counts base_counts) (get b zero_counts asanmm_counts))
            benches
            rows
  unfolding suite_rows
  asanmm_rows-eq-ok suite base_counts asanmm_counts native base asanmm [] = ([], refl, tt)
  asanmm_rows-eq-ok suite base_counts asanmm_counts native base asanmm (bench ∷ benches) =
      let (rows, e, d) =
        asanmm_rows-eq-ok suite base_counts asanmm_counts native base asanmm benches in
      let (row, er, dr) =
        asanmm_row-eq-ok suite bench (get bench zero_counts base_counts)
          (get bench zero_counts asanmm_counts) (run_of F bench native) (run_of F bench base)
          (run_of F bench asanmm) in
      (row ∷ rows, rw (er, e), (dr, d))

  sanrazor_row-eq-ok :
      (suite bench level : Str) (c : CheckTotals) (native base sanrazor : RunResult Float)
      → (row : SanrazorRow Float) × (sanrazor_row F suite bench level c native base sanrazor
          ≡ ok row)
        × Razes F bench c row
  unfolding sanrazor_row
  sanrazor_row-eq-ok suite bench level c native base sanrazor =
      let (m, r, em, _, _) =
        overhead_metrics-eq-ok F ieee native.status base.status sanrazor.status native.time
          base.time sanrazor.time in
      let (r1, e1, k1) =
        percent_of-eq-ok F ieee (Razor.removed_of c.original c.remaining) c.original in
      let (r2, e2, k2) =
        percent_of-eq-ok F ieee (Razor.removed_of c.original_cost c.remaining_cost)
          c.original_cost in
      (
        row_of F suite bench level c native base sanrazor (m, r)
            (Razor.removed_of c.original c.remaining)
            (Razor.removed_of c.original_cost c.remaining_cost) r1 r2,
        rw (em, e1, e2),
        record {
          named = refl;
          removed = removed_of-IsSurplus c.original c.remaining;
          cost_removed = removed_of-IsSurplus c.original_cost c.remaining_cost;
          removal_known = k1;
          cost_known = k2;
        },
      )

  -- With IEEE floats the loop of scripts/spec_sanrazor_summary.py ends without an exception, with
  -- one row for each benchmark, in order. The removed checks and their removed cost are the larger
  -- of 0 and the difference of their two totals. The ratios are known exactly where the original
  -- number, of checks or of cost, is not 0.
  pub sanrazor_rows-eq-ok :
      (suite level : Str) (checks : Dict Str CheckTotals) (native base sanrazor : Results F)
      (benches : List Str)
      → (rows : List (SanrazorRow Float)) × (sanrazor_rows F suite level checks native base sanrazor
            benches
          ≡ ok rows)
        × Matches (λ b. Razes F b (get b zero_totals checks)) benches rows
  unfolding sanrazor_rows
  sanrazor_rows-eq-ok suite level checks native base sanrazor [] = ([], refl, tt)
  sanrazor_rows-eq-ok suite level checks native base sanrazor (bench ∷ benches) =
      let (rows, e, d) = sanrazor_rows-eq-ok suite level checks native base sanrazor benches in
      let (row, er, dr) =
        sanrazor_row-eq-ok suite bench level (get bench zero_totals checks) (run_of F bench native)
          (run_of F bench base) (run_of F bench sanrazor) in
      (row ∷ rows, rw (er, e), (dr, d))
