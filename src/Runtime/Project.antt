-- ===== src/Runtime/Project.antt =====
-- `parse_runtime_csv` and `summarize_runtime` of scripts/opensource_summary.py, which
-- scripts/opensource_asanmm_summary.py holds once more: the runs of a project by variant.
use mathlib.Core.List.{append-nil, append_assoc}
use desan.Prelude.{
  refl, ◌&&◌, lookup-insert, update, option_eq, Key, Bool-cases, inl, inr, sym, ap, ◌∙◌, ◌≡◌,
  Option, none, some, List, [], ◌∷◌, ◌++◌, Dict, get, lookup, nat_eq, list_eq, ◌==◌, if◌then◌else◌,
}
use desan.Py.Text.{Str, codes}
use desan.Py.Table.{Table, Row, dict_reader, row_get}
use desan.Py.Float.{FloatOps}
use desan.Records.{is_text}
use desan.Runtime.{numeric}

module _ (F : FloatOps) where
  open F use {Float}

  -- `(status, seconds)`
  abbrev pub ProjectRun : Type 0
  ProjectRun = Option Str × Option Float

  -- The runs by variant. A row that is too short has `None` for a variant.
  abbrev pub Runs : Type 0
  Runs = Dict (Option Str) (List ProjectRun)

  abbrev pub run_of_row : Row → ProjectRun
  run_of_row row =
      (row_get (codes "Status") (some []) row, numeric F (row_get (codes "Seconds") none row))

  abbrev pub variant_of : Row → Option Str
  variant_of row = row_get (codes "Variant") (some []) row

  -- `runs.setdefault(variant, []).append((status, seconds))`
  unfoldable pub add_runs : Runs → List Row → Runs
  add_runs runs [] = runs
  add_runs runs (row ∷ rows) =
      add_runs (update (variant_of row) [] (λ rs. rs ++ (run_of_row row ∷ [])) runs) rows

  unfoldable pub parse_project_runtime : Option Table → Runs
  unfolding add_runs dict_reader row_get
  parse_project_runtime none = []
  parse_project_runtime (some table) = add_runs [] (dict_reader table)

  -- `[seconds for status, seconds in runs if status == "S" and seconds is not None]`
  unfoldable pub successful : List ProjectRun → List Float
  successful [] = []
  successful ((status, none) ∷ runs) = successful runs
  successful ((status, some seconds) ∷ runs) =
      let rest = successful runs in if is_text status (codes "S") then seconds ∷ rest else rest

  abbrev pub mean_or_missing : List Float → Option Float × Str
  mean_or_missing [] = (none, codes "NR")
  mean_or_missing (x ∷ xs) = (some (F.mean (x ∷ xs)), codes "S")

  unfoldable pub summarize_runtime : Runs → Str → Option Float × Str
  unfolding successful
  summarize_runtime runs variant = mean_or_missing (successful (get (some variant) [] runs))

  -- The rows of a variant, in their order.
  abbrev pub rows_of : Str → List Row → List Row
  rows_of v [] = []
  rows_of v (row ∷ rows) =
      let rest = rows_of v rows in if variant_of row == some v then row ∷ rest else rest

  abbrev pub runs_of_rows : List Row → List ProjectRun
  runs_of_rows [] = []
  runs_of_rows (row ∷ rows) = run_of_row row ∷ runs_of_rows rows

  pub get-add_runs :
      (runs : Runs) (rows : List Row) (v : Str)
      → get (some v) [] (add_runs runs rows) ≡ get (some v) [] runs ++ runs_of_rows (rows_of v rows)
  unfolding add_runs
  get-add_runs runs [] v = sym (append-nil _)
  get-add_runs runs (row ∷ rows) v =
      get-add_runs (update (variant_of row) [] (λ rs. rs ++ (run_of_row row ∷ [])) runs) rows v
      ∙ elim (Bool-cases (variant_of row == some v)) [
        | inl e ↦
            rw (e, lookup-insert, e, (Key.same_iff option_eq (variant_of row) (some v)).0 e)
              (append_assoc (get (some v) [] runs) (run_of_row row ∷ [])
                (runs_of_rows (rows_of v rows)))
        | inr e ↦ rw (e, lookup-insert, e)
      ]

  -- The time of a row, if it is a successful run of a variant
  abbrev pub time_of : Str → Row → Option Float
  time_of v row =
      if row_get (codes "Variant") (some []) row == some v
        && row_get (codes "Status") (some []) row == some (codes "S")
      then numeric F (row_get (codes "Seconds") none row)
      else none

  abbrev pub cons_some : Option Float → List Float → List Float
  cons_some none xs = xs
  cons_some (some x) xs = x ∷ xs

  -- The times of the successful runs of a variant, in the order of the rows
  abbrev pub times_of : Str → List Row → List Float
  times_of v [] = []
  times_of v (row ∷ rows) = cons_some (time_of v row) (times_of v rows)

  -- No time, or their mean
  abbrev pub summary_of : List Float → Option Float × Str
  summary_of [] = (none, codes "NR")
  summary_of (x ∷ xs) = (some (F.mean (x ∷ xs)), codes "S")

  successful-cons :
      (status : Option Str) (seconds : Option Float) (runs : List ProjectRun)
      → successful ((status, seconds) ∷ runs)
        ≡ cons_some (if status == some (codes "S") then seconds else none) (successful runs)
  unfolding successful
  successful-cons none none runs = refl
  successful-cons none (some x) runs = refl
  successful-cons (some s) none runs = elim (Bool-cases (s == codes "S")) [
    | inl e ↦ rw e
    | inr e ↦ rw e
  ]
  successful-cons (some s) (some x) runs = elim (Bool-cases (s == codes "S")) [
    | inl e ↦ rw e
    | inr e ↦ rw e
  ]

  successful-times_of :
      (v : Str) (rows : List Row) → successful (runs_of_rows (rows_of v rows)) ≡ times_of v rows
  unfolding successful
  successful-times_of v [] = refl
  successful-times_of v (row ∷ rows) = elim (Bool-cases (variant_of row == some v)) [
    | inl e ↦ rw (e, successful-cons, successful-times_of v rows)
    | inr e ↦ rw (e, successful-times_of v rows)
  ]

  summary_of-mean_or_missing : (xs : List Float) → mean_or_missing xs ≡ summary_of xs
  summary_of-mean_or_missing [] = refl
  summary_of-mean_or_missing (x ∷ xs) = refl

  -- A variant's summary is the mean of the times in the rows that have its name, the status S and a
  -- time, or `NR` and no time if there are none.
  pub summarize_runtime-times_of :
      (table : Table) (variant : Str)
      → summarize_runtime (parse_project_runtime (some table)) variant
        ≡ summary_of (times_of variant (dict_reader table))
  unfolding summarize_runtime parse_project_runtime lookup
  summarize_runtime-times_of table variant =
      ap (λ rs. mean_or_missing (successful rs)) (get-add_runs [] (dict_reader table) variant)
      ∙ ap mean_or_missing (successful-times_of variant (dict_reader table))
      ∙ summary_of-mean_or_missing (times_of variant (dict_reader table))
