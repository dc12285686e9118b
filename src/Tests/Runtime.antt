-- ===== src/Tests/Runtime.antt =====
-- The run times of a benchmark in two tables of SPEC.
use desan.Prelude.{
  ◌≡◌, refl, Option, none, some, List, [], ◌∷◌, ◌++◌, lookup, insert, list_beq, nat_eq, list_eq,
}
use desan.Prelude.Int.{ℤ, pos}
use desan.Py.Text.{Str, codes, strip, starts_with}
use desan.Py.Table.{Table, dict_reader}
use desan.Runtime.{numeric}
use desan.Py.Number.{int}
use desan.Runtime.Spec.{is_spec_name, cell, header_from, runtime_tables}
use desan.Runtime.Selection.{Run, first_timed, result_of, runs_of}
use desan.Runtime.Tables.{tables_runs, runtime_tables-unselected, runtime_tables-selected}
use desan.Runtime.Project.{
  parse_project_runtime, summarize_runtime, summary_of, times_of, summarize_runtime-times_of,
}
use desan.Tests.Floats.{whole}

abbrev header : List Str
header =
    codes "Benchmark"
    ∷ codes "Est. Base Run Time"
    ∷ codes "Base Status"
    ∷ codes "Base Selected"
    ∷ []

abbrev tables : Table → List Table
tables rows = (header ∷ rows) ∷ []

abbrev bzip2 : Str
bzip2 = codes "401.bzip2"

abbrev run : Option ℤ → Str → Run ℤ
run time selected = record { bench = bzip2; time = time; status = codes "S"; selected = selected }

abbrev unselected_rows : Table
unselected_rows =
    (bzip2 ∷ codes "--" ∷ codes "S" ∷ codes "0" ∷ [])
    ∷ (bzip2 ∷ codes "12" ∷ codes "S" ∷ codes "0" ∷ [])
    ∷ []

unselected_runs :
    runs_of bzip2 (tables_runs whole strip (tables unselected_rows))
    ≡ run none (codes "0") ∷ run (some (pos 12)) (codes "0") ∷ []
unfolding list_beq starts_with is_spec_name strip numeric cell header_from insert int
unselected_runs = refl

runtime_tables-unselected_example :
    lookup bzip2 (runtime_tables whole strip [] (tables unselected_rows))
    ≡ some (result_of (first_timed (run none (codes "0")) (run (some (pos 12)) (codes "0") ∷ [])))
unfolding list_beq
runtime_tables-unselected_example =
    runtime_tables-unselected whole strip (tables unselected_rows) bzip2 (run none (codes "0"))
      (run (some (pos 12)) (codes "0") ∷ []) unselected_runs (refl, tt)

abbrev selected_rows : Table
selected_rows =
    (bzip2 ∷ codes "15" ∷ codes "S" ∷ codes "0" ∷ [])
    ∷ (bzip2 ∷ codes "12" ∷ codes "S" ∷ codes "1" ∷ [])
    ∷ []

selected_runs :
    runs_of bzip2 (tables_runs whole strip (tables selected_rows))
    ≡ (run (some (pos 15)) (codes "0") ∷ []) ++ (run (some (pos 12)) (codes "1") ∷ [])
unfolding list_beq starts_with is_spec_name strip numeric cell header_from insert int
selected_runs = refl

runtime_tables-selected_example :
    lookup bzip2 (runtime_tables whole strip [] (tables selected_rows))
    ≡ some (result_of (run (some (pos 12)) (codes "1")))
unfolding list_beq
runtime_tables-selected_example =
    runtime_tables-selected whole strip (tables selected_rows) bzip2
      (run (some (pos 15)) (codes "0") ∷ []) [] (run (some (pos 12)) (codes "1")) selected_runs refl
      (λ h. cc) tt

abbrev project_table : Table
project_table =
    (codes "Variant" ∷ codes "Status" ∷ codes "Seconds" ∷ [])
    ∷ (codes "native" ∷ codes "S" ∷ codes "4" ∷ [])
    ∷ (codes "native" ∷ codes "RE" ∷ codes "9" ∷ [])
    ∷ (codes "asan-base" ∷ codes "S" ∷ codes "6" ∷ [])
    ∷ []

summarize_runtime-times_of_example :
    summarize_runtime whole (parse_project_runtime whole (some project_table)) (codes "native")
    ≡ summary_of whole (times_of whole (codes "native") (dict_reader project_table))
summarize_runtime-times_of_example = summarize_runtime-times_of whole project_table (codes "native")
