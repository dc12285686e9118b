-- ===== src/Runtime/Tables.antt =====
-- What the SPEC summary reads from whole tables: for each benchmark the choice between its rows.
use desan.Prelude.{
  ℕ, ◌≡◌, ◌≢◌, refl, ◌∙◌, true, Option, none, some, List, [], ◌∷◌, ◌++◌, Dict, lookup, nat_eq,
  list_eq, ◌==◌, All, arith, Bool-cases, inl, inr, if◌then◌else◌,
}
use desan.Py.Text.{Str, codes, starts_with}
use desan.Py.Table.{Table}
use desan.Py.Float.{FloatOps}
use desan.Runtime.{numeric}
use desan.Runtime.Spec.{
  record_run, RunResult, header_from, cell, stripped, is_spec_name, benchmark_row, runtime_row,
  runtime_rows, runtime_tables,
}
use desan.Runtime.Selection.{
  Run, result_of, runs_of, chosen, record_runs, lookup-record_runs, IsUnselected, first_timed,
  chosen-unselected, chosen-selected,
}

module _ (F : FloatOps) (name_of : Str → Str) where
  open F use {Float}

  abbrev next_header : Option (Dict Str ℕ) → List Str → Option (Dict Str ℕ)
  next_header h [] = h
  next_header h (first ∷ row) =
      if first == codes "Benchmark" then some (header_from 0 (first ∷ row) []) else h

  -- The run that a row below a header tells of, if it is a row of a benchmark.
  abbrev pub run_below : Dict Str ℕ → List Str → Str → List (Run Float)
  run_below header row first =
      if starts_with first (codes "\"")
      then []
      else if is_spec_name (name_of first)
      then record {
        bench = name_of first;
        time = numeric F (cell header (codes "Est. Base Run Time") row);
        status = stripped (cell header (codes "Base Status") row);
        selected = stripped (cell header (codes "Base Selected") row);
      }
        ∷ []
      else []

  abbrev run_of : Option (Dict Str ℕ) → List Str → List (Run Float)
  run_of h [] = []
  run_of none (first ∷ row) = []
  run_of (some h) (first ∷ row) =
      if first == codes "Benchmark" then [] else run_below h (first ∷ row) first

  -- The runs that the rows of a table tell of, in order.
  abbrev pub table_runs : Option (Dict Str ℕ) → Table → List (Run Float)
  table_runs h [] = []
  table_runs h (row ∷ rows) = run_of h row ++ table_runs (next_header h row) rows

  abbrev pub tables_runs : List Table → List (Run Float)
  tables_runs [] = []
  tables_runs (table ∷ tables) = table_runs none table ++ tables_runs tables

  record_runs-append :
      (results : Dict Str (RunResult Float)) (rs more : List (Run Float))
      → record_runs results (rs ++ more) ≡ record_runs (record_runs results rs) more
  record_runs-append results [] more = refl
  record_runs-append results (r ∷ rs) more =
      record_runs-append (record_run r.bench r.time r.status r.selected results) rs more

  runtime_row-runs :
      (h : Option (Dict Str ℕ)) (results : Dict Str (RunResult Float)) (row : List Str)
      → runtime_row F name_of (h, results) row
        ≡ (next_header h row, record_runs results (run_of h row))
  unfolding runtime_row benchmark_row
  runtime_row-runs h results [] = refl
  runtime_row-runs none results (first ∷ row) = ground arith
  runtime_row-runs (some h) results (first ∷ row) = elim (Bool-cases (first == codes "Benchmark")) [
    | inl e ↦ rw e
    | inr e ↦ rw e (elim (Bool-cases (starts_with first (codes "\""))) [
      | inl p ↦ rw p
      | inr p ↦
          rw p (elim (Bool-cases (is_spec_name (name_of first))) [ inl q ↦ rw q | inr q ↦ rw q ])
    ])
  ]

  runtime_rows-runs :
      (h : Option (Dict Str ℕ)) (results : Dict Str (RunResult Float)) (rows : Table)
      → (runtime_rows F name_of (h, results) rows).1 ≡ record_runs results (table_runs h rows)
  unfolding runtime_rows
  runtime_rows-runs h results [] = refl
  runtime_rows-runs h results (row ∷ rows) =
      rw (runtime_row-runs h results row, runtime_rows, record_runs-append)
        (runtime_rows-runs (next_header h row) (record_runs results (run_of h row)) rows)

  runtime_tables-runs :
      (results : Dict Str (RunResult Float)) (tables : List Table)
      → runtime_tables F name_of results tables ≡ record_runs results (tables_runs tables)
  unfolding runtime_tables
  runtime_tables-runs results [] = refl
  runtime_tables-runs results (table ∷ tables) =
      rw (runtime_rows-runs none results table, runtime_tables, record_runs-append)
        (runtime_tables-runs (record_runs results (table_runs none table)) tables)

  runtime_tables-chosen :
      (tables : List Table) (b : Str)
      → lookup b (runtime_tables F name_of [] tables) ≡ chosen none (runs_of b (tables_runs tables))
  unfolding lookup
  runtime_tables-chosen tables b =
      rw (runtime_tables-runs [] tables) (lookup-record_runs b [] (tables_runs tables))

  -- If SPEC selected none of the later rows of a benchmark, in whatever tables and under whatever
  -- headers they stand, the first row with a time is read, or the first row if none has a time.
  pub runtime_tables-unselected :
      (tables : List Table) (b : Str) (r : Run Float) (rs : List (Run Float))
      → runs_of b (tables_runs tables) ≡ r ∷ rs
      → All IsUnselected rs
      → lookup b (runtime_tables F name_of [] tables) ≡ some (result_of (first_timed r rs))
  runtime_tables-unselected tables b r rs e u =
      runtime_tables-chosen tables b ∙ rw e (chosen-unselected r rs u)

  -- A row with a time that SPEC selected is read, if none of the benchmark's later rows is selected.
  pub runtime_tables-selected :
      (tables : List Table) (b : Str) (before after : List (Run Float)) (r : Run Float)
      → runs_of b (tables_runs tables) ≡ before ++ (r ∷ after)
      → (r.selected == codes "1") ≡ true
      → r.time ≢ none
      → All IsUnselected after
      → lookup b (runtime_tables F name_of [] tables) ≡ some (result_of r)
  runtime_tables-selected tables b before after r e s t u =
      runtime_tables-chosen tables b ∙ rw e (chosen-selected before none after r s t u)
