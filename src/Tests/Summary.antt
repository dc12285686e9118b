-- ===== src/Tests/Summary.antt =====
-- The metrics and the summaries on a few benchmarks, with whole numbers for times.
use desan.Prelude.{◌≡◌, ◌≢◌, ◌↔◌, Option, none, some, List, [], ◌∷◌, Dict, get, nat_eq, list_eq}
use desan.Prelude.Int.{ℤ, pos}
use desan.Py.Result.{ok}
use desan.Py.Text.{Str, codes}
use desan.Overhead.{Overheads, compute_overhead_metrics, overhead_metrics}
use desan.Overhead.Laws.{
  IsComparable, Differ, Positive, compute_overhead_metrics-eq-ok, overhead_metrics-eq-ok,
}
use desan.Records.Asan.{Counts, zero_counts}
use desan.Records.Asanmm
use desan.Summary.Asan.{SummaryRow, Results, is_absent, suite_rows}
use desan.Summary.Asanmm as Comparison
use desan.Summary.Totality.{Describes, Matches, kept, suite_rows-eq-ok}
use desan.Summary.Comparisons.{Compares, Razes, asanmm_rows-eq-ok, sanrazor_rows-eq-ok}
use desan.Sanrazor.{CheckTotals, zero_totals}
use desan.Sanrazor.Summary.{SanrazorRow, sanrazor_rows}
use desan.Tests.Floats.{whole, whole-IsIeee}
use desan.Tests.Records.{zlib_counts}

abbrev success : Str
success = codes "S"

compute_overhead_metrics-eq-ok_example :
    (m : Overheads ℤ) × (compute_overhead_metrics whole success success success
        (some (pos 10))
        (some (pos 30))
        (some (pos 20))
      ≡ ok m)
    × ((m.sanitizer_overhead ≢ none)
        ↔ IsComparable whole success success success
            (some (pos 10))
            (some (pos 30))
            (some (pos 20)))
    × ((m.tool_overhead ≢ none)
        ↔ IsComparable whole success success success
            (some (pos 10))
            (some (pos 30))
            (some (pos 20)))
    × ((m.overhead_reduction ≢ none) ↔ (
        IsComparable whole success success success (some (pos 10)) (some (pos 30)) (some (pos 20))
        × Differ whole (some (pos 30)) (some (pos 10))))
compute_overhead_metrics-eq-ok_example =
    compute_overhead_metrics-eq-ok whole whole-IsIeee success success success (some (pos 10))
      (some (pos 30)) (some (pos 20))

overhead_metrics-eq-ok_example :
    (m : Overheads ℤ) × (r : Option ℤ) × (overhead_metrics whole success success success
        (some (pos 10))
        (some (pos 30))
        (some (pos 20))
      ≡ ok (m, r))
    × (compute_overhead_metrics whole success success success
          (some (pos 10))
          (some (pos 30))
          (some (pos 20))
        ≡ ok m)
    × ((r ≢ none) ↔ (
        IsComparable whole success success success (some (pos 10)) (some (pos 30)) (some (pos 20))
        × Positive whole (some (pos 30))))
overhead_metrics-eq-ok_example =
    overhead_metrics-eq-ok whole whole-IsIeee success success success (some (pos 10))
      (some (pos 30)) (some (pos 20))

abbrev runs : Results whole
runs = (codes "zlib", record { time = some (pos 10); status = success }) ∷ []

abbrev counts : Dict Str Counts
counts = (codes "zlib", zlib_counts) ∷ []

abbrev benches : List Str
benches = codes "absent" ∷ codes "zlib" ∷ []

suite_rows-eq-ok_example :
    (rows : List (SummaryRow ℤ)) × (suite_rows whole
        (codes "OpenSource")
        counts
        runs
        runs
        runs
        benches
      ≡ ok rows)
    × Matches
        (λ b. Describes whole b (get b zero_counts counts))
        (kept (is_absent whole counts runs runs runs) benches)
        rows
suite_rows-eq-ok_example =
    suite_rows-eq-ok whole whole-IsIeee (codes "OpenSource") counts runs runs runs benches

abbrev access : Dict Str Asanmm.AccessCounts
access =
    (
      codes "zlib",
      record {
        compile_units = 1;
        fallback_units = 0;
        total_checks = pos 7;
        core_checks = pos 5;
        read_checks = pos 3;
        write_checks = pos 2;
      },
    )
    ∷ []

asanmm_rows-eq-ok_example :
    (rows : List (Comparison.ComparisonRow ℤ)) × (Comparison.suite_rows whole
        (codes "OpenSource")
        access
        []
        runs
        runs
        runs
        benches
      ≡ ok rows)
    × Matches
        (λ b. Compares whole b (get b Asanmm.zero_counts access) (get b Asanmm.zero_counts []))
        benches
        rows
asanmm_rows-eq-ok_example =
    asanmm_rows-eq-ok whole whole-IsIeee (codes "OpenSource") access [] runs runs runs benches

abbrev checks : Dict Str CheckTotals
checks =
    (
      codes "zlib",
      record {
        original = pos 9;
        remaining = pos 4;
        original_cost = pos 90;
        remaining_cost = pos 95;
      },
    )
    ∷ []

sanrazor_rows-eq-ok_example :
    (rows : List (SanrazorRow ℤ)) × (sanrazor_rows whole
        (codes "CPU2006")
        (codes "L1")
        checks
        runs
        runs
        runs
        benches
      ≡ ok rows)
    × Matches (λ b. Razes whole b (get b zero_totals checks)) benches rows
sanrazor_rows-eq-ok_example =
    sanrazor_rows-eq-ok whole whole-IsIeee (codes "CPU2006") (codes "L1") checks runs runs runs
      benches
