-- ===== src/Comparison/Results.antt =====
-- The two output files of `collect_results` of scripts/run_oss_asanmm_comparison.py, from the rows of the
-- summaries.
use desan.Prelude.{
  map, option_eq, true, map, ℕ, suc, Bool, Option, none, some, List, [], ◌∷◌, ◌++◌, lookup, keys,
  contains, nat_eq, list_eq, ◌&&◌, if◌then◌else◌,
}
use desan.Py.Text.{Str, codes}
use desan.Py.Number.{show}
use desan.Py.Table.{Table, Row}
use desan.Py.Float.{FloatOps}
use desan.Driver.{
  Action, Outcome, done, raised, ◌>>◌, pure, create, key_error, value_error, type_error, System,
  newline, ◌/◌, out_base, World, perform,
}
use desan.Driver.Inputs.{join}

-- A row with its surplus, which stands under the key `None` if it is not empty
abbrev pub WholeRow : Type 0
WholeRow = Row × List Str

abbrev pub keys_of : WholeRow → List (Option Str)
keys_of (row, []) = map some (keys row)
keys_of (row, cell ∷ more) = map some (keys row) ++ (none ∷ [])

-- Whether a row has no key but the given ones
abbrev pub known_fields : List (Option Str) → List (Option Str) → Bool
known_fields names [] = true
known_fields names (key ∷ more) = contains key names && known_fields names more

-- A cell that is `None`, or that a row does not have, is left empty.
abbrev cell_text : Option (Option Str) → Str
cell_text none = []
cell_text (some none) = []
cell_text (some (some text)) = text

module _ (list_text : List Str → Str) where
  -- What is written of a row under a key
  abbrev cell : Option Str → WholeRow → Str
  cell (some name) (row, extra) = cell_text (lookup name row)
  cell none (row, []) = []
  cell none (row, text ∷ more) = list_text (text ∷ more)

  abbrev cells : List (Option Str) → WholeRow → List Str
  cells [] row = []
  cells (name ∷ names) row = cell name row ∷ cells names row

  -- `writer.writerows(rows)`: the rows that are written, and how it ends
  unfoldable pub csv_rows : List (Option Str) → List WholeRow → Table × Outcome {0} Unit
  unfolding lookup keys contains
  csv_rows names [] = ([], done tt)
  csv_rows names (row ∷ rows) =
      let (written, end) = csv_rows names rows in
      if known_fields names (keys_of row)
      then (cells names row ∷ written, end)
      else ([], raised (value_error (codes "dict contains fields not in fieldnames")))

-- The first line: the key `None` is an empty cell.
abbrev name_cells : List (Option Str) → List Str
name_cells [] = []
name_cells (none ∷ names) = [] ∷ name_cells names
name_cells (some name ∷ names) = name ∷ name_cells names

abbrev pub md_fields : List Str
md_fields =
    codes "Benchmark"
    ∷ codes "Original Checks"
    ∷ codes "ASAN-- Checks"
    ∷ codes "Removed Checks"
    ∷ codes "Removed / Original"
    ∷ codes "Core / All Original"
    ∷ codes "Removed Read Checks"
    ∷ codes "Removed Store Checks"
    ∷ codes "Runtime Native"
    ∷ codes "Runtime ASan"
    ∷ codes "Runtime ASAN--"
    ∷ codes "Overhead Reduction %"
    ∷ []

abbrev md_headers : List Str
md_headers =
    codes "Benchmark"
    ∷ codes "Original"
    ∷ codes "ASAN--"
    ∷ codes "Removed"
    ∷ codes "Removed/Orig"
    ∷ codes "Core/All"
    ∷ codes "Read Removed"
    ∷ codes "Store Removed"
    ∷ codes "Native(s)"
    ∷ codes "ASan(s)"
    ∷ codes "ASAN--(s)"
    ∷ codes "Overhead Reduction"
    ∷ codes "Status"
    ∷ []

-- `row[name]` for each name in order
unfoldable pub fields_of : List Str → Row → Outcome (List (Option Str))
unfolding lookup
fields_of [] row = done []
fields_of (name ∷ names) row =
    let rest = fields_of names row in
    elim (lookup name row) [
      | none ↦ raised (key_error name)
      | some value ↦ elim rest [ done values ↦ done (value ∷ values) | raised e ↦ raised e ]
    ]

-- A value in an f-string
abbrev formatted : Option Str → Str
formatted none = codes "None"
formatted (some text) = text

-- `" | ".join(…)` raises a `TypeError` at its first value that is `None`.
abbrev texts_of : ℕ → List (Option Str) → Outcome (List Str)
texts_of n [] = done []
texts_of n (none ∷ values) = raised (
    type_error
      (codes "sequence item " ++ show n ++ codes ": expected str instance, NoneType found"))
texts_of n (some text ∷ values) = elim (texts_of (suc n) values) [
  | done texts ↦ done (text ∷ texts)
  | raised e ↦ raised e
]

abbrev md_line : List Str → Str
md_line texts = codes "| " ++ join (codes " | ") texts ++ codes " |" ++ newline

abbrev with_statuses : List (Option Str) → Outcome (List (Option Str)) → Outcome Str
with_statuses values (raised e) = raised e
with_statuses values (done statuses) =
    elim (texts_of 0 (values ++ (some (join (codes "->") (map formatted statuses)) ∷ []))) [
      | done texts ↦ done (md_line texts)
      | raised e ↦ raised e
    ]

-- The line of a row
unfoldable pub md_row : Row → Outcome Str
unfolding fields_of
md_row row = elim (fields_of md_fields row) [
  | raised e ↦ raised e
  | done values ↦
      with_statuses values
        (fields_of (codes "Native Status" ∷ codes "ASan Status" ∷ codes "ASAN-- Status" ∷ []) row)
]

-- The lines of the rows up to the first exception, and how it ends
unfoldable pub md_rows : List WholeRow → Str × Outcome {0} Unit
unfolding md_row
md_rows [] = ([], done tt)
md_rows ((row, extra) ∷ rows) =
    let (lines, end) = md_rows rows in
    elim (md_row row) [ done line ↦ (line ++ lines, end) | raised e ↦ ([], raised e) ]

abbrev rule : List Str → Str
rule headers =
    codes "|" ++ join (codes "|") (map (λ h. codes "---") headers) ++ codes "|" ++ newline

module _ {F : FloatOps} (S : System F) where
  abbrev pub results_path : Str → Str
  results_path suffix = out_base / (codes "oss-asanmm-after-check-elimination-results" ++ suffix)

  -- No table is written of no rows. The fields are those of the first row.
  unfoldable pub write_results_csv : List WholeRow → Action (World S)
  unfolding csv_rows keys
  write_results_csv [] = pure tt
  write_results_csv (row ∷ rows) = perform S (create (results_path (codes ".csv"))) >> (λ w.
      let (written, end) = csv_rows S.list_text (keys_of row) (row ∷ rows) in
      (
        end,
        record w {
          system =
              S.save (results_path (codes ".csv")) (name_cells (keys_of row) ∷ written) w.system;
        },
      ))

  unfoldable pub write_results_md : List WholeRow → Action (World S)
  unfolding md_rows
  write_results_md rows = perform S (create (results_path (codes ".md"))) >> (λ w.
      let (lines, end) = md_rows rows in
      (
        end,
        record w {
          system =
              S.save_text (results_path (codes ".md"))
                (md_line md_headers ++ rule md_headers ++ lines) w.system;
        },
      ))
