-- ===== src/Driver/RunTables.antt =====
-- What the summaries read from the table of the runs: `run_runtime` writes it, and
-- `parse_runtime_csv` of scripts/opensource_summary.py reads it.
use desan.Prelude.{
  length-append, lookup, ℕ, suc, ◌+◌, ◌*◌, ◌≡◌, refl, ap, ◌∙◌, Bool-cases, inl, inr, some, List, [],
  ◌∷◌, ◌++◌, length, get, nat_eq, list_eq, option_eq, ◌==◌, arith, if◌then◌else◌,
}
use desan.Py.Text.{Str}
use desan.Py.Table.{Table, Row, dict_reader, dict_reader-append, row_get}
use desan.Py.Float.{FloatOps}
use desan.Runtime.Project.{rows_of, runs_of_rows, variant_of, get-add_runs, parse_project_runtime}
use desan.Driver.Runs.{header}
use desan.Driver.RunLaws.{Numbered}

-- The rows of some variants, one after the other, each with as many runs
abbrev pub Blocks : List Str → ℕ → Table → Type 0
Blocks [] runs rows = rows ≡ []
Blocks (label ∷ labels) runs rows =
    (first : Table) × (rest : Table) × (rows ≡ first ++ rest)
    × Numbered label 1 first
    × (length first ≡ runs)
    × Blocks labels runs rest

abbrev pub occurrences : Str → List Str → ℕ
occurrences v [] = 0
occurrences v (label ∷ labels) =
    let rest = occurrences v labels in if label == v then suc rest else rest

module _ (F : FloatOps) where
  -- How many rows of a variant `DictReader` reads under the header
  abbrev count : Str → Table → ℕ
  count v rows = length (rows_of F v (dict_reader (header ∷ rows)))

  rows_of-append :
      (v : Str) (xs ys : List Row) → rows_of F v (xs ++ ys) ≡ rows_of F v xs ++ rows_of F v ys
  rows_of-append v [] ys = refl
  rows_of-append v (x ∷ xs) ys = elim (Bool-cases (variant_of F x == some v)) [
    | inl e ↦ rw (e, rows_of-append v xs ys)
    | inr e ↦ rw (e, rows_of-append v xs ys)
  ]

  count-Numbered :
      (v label : Str) (run : ℕ) (rows : Table)
      → Numbered label run rows
      → count v rows ≡ (if label == v then length rows else 0)
  unfolding dict_reader row_get
  count-Numbered v label run [] h = elim (Bool-cases (label == v)) [ inl e ↦ rw e | inr e ↦ rw e ]
  count-Numbered v label run (row ∷ rows) ((status, seconds, e, _), h) =
      let ih = count-Numbered v label (suc run) rows h in
      elim (Bool-cases (label == v)) [
        | inl k ↦ rw (e, k) (ap suc (ih ∙ rw k))
        | inr k ↦ rw (e, k) (ih ∙ rw k)
      ]

  count-append : (v : Str) (xs ys : Table) → count v (xs ++ ys) ≡ count v xs + count v ys
  count-append v xs ys =
      ap (λ rs. length (rows_of F v rs)) (dict_reader-append header xs ys)
      ∙ ap length (rows_of-append v (dict_reader (header ∷ xs)) (dict_reader (header ∷ ys)))
      ∙ length-append _ _

  count-Blocks :
      (v : Str) (labels : List Str) (runs : ℕ) (rows : Table)
      → Blocks labels runs rows
      → count v rows ≡ occurrences v labels * runs
  unfolding dict_reader
  count-Blocks v [] runs rows h = rw h (omega arith)
  count-Blocks v (label ∷ labels) runs rows (first, rest, e, numbered, l, h) =
      let total = ap (count v) e ∙ count-append v first rest in
      let ours = count-Numbered v label 1 first numbered in
      let ih = count-Blocks v labels runs rest h in
      elim (Bool-cases (label == v)) [
        | inl k ↦ rw k (omega (arith, total, rw k at ours, l, ih))
        | inr k ↦ rw k (omega (arith, total, rw k at ours, ih))
      ]

  length-runs_of_rows : (rows : List Row) → length (runs_of_rows F rows) ≡ length rows
  length-runs_of_rows [] = refl
  length-runs_of_rows (row ∷ rows) = ap suc (length-runs_of_rows rows)

  -- From the table of the runs of some variants parse_runtime_csv reads, for each name, as many runs
  -- as were asked for, for each time that the name is the label of a variant.
  pub length-parse_project_runtime :
      (v : Str) (labels : List Str) (runs : ℕ) (rows : Table)
      → Blocks labels runs rows
      → length (get (some v) [] (parse_project_runtime F (some (header ∷ rows))))
        ≡ occurrences v labels * runs
  unfolding parse_project_runtime lookup
  length-parse_project_runtime v labels runs rows h =
      ap length (get-add_runs F [] (dict_reader (header ∷ rows)) v)
      ∙ length-runs_of_rows (rows_of F v (dict_reader (header ∷ rows)))
      ∙ count-Blocks v labels runs rows h
