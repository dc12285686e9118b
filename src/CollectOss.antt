-- ===== src/CollectOss.antt =====
-- scripts/collect_oss_batch_results.py: the summaries of the projects with the statuses of the batch
-- run, from the tables that are read to the rows that are written.
use desan.Prelude.{
  ◌≡◌, refl, false, Option, none, some, List, [], ◌∷◌, ◌++◌, Dict, get, lookup, insert, contains,
  nat_eq, list_eq, option_eq, pair_eq, ◌==◌, All, Bool-cases, inl, inr, if◌then◌else◌,
}
use desan.Py.Text.{Str, codes}
use desan.Py.Table.{Table, Row, dict_reader, row_get}
use desan.CountChecks.{str_lt}
use desan.Summary.{insert_name, sorted_names}
use desan.Collect.Main.{empty_row}

-- `name.split("-")[0]`
unfoldable pub before_dash : Str → Str
before_dash [] = []
before_dash (c ∷ s) = let rest = before_dash s in if c == b'-' then [] else c ∷ rest

abbrev firsts : List Str → List Str
firsts [] = []
firsts (name ∷ names) = before_dash name ∷ firsts names

-- The projects without `--projects`: `names` are those of the files that the pattern gives.
unfoldable pub default_projects : List Str → List Str
unfolding before_dash sorted_names
default_projects names = sorted_names (firsts names)

abbrev pub Statuses : Type 0
Statuses = Dict (Option Str × Option Str) (Option Str × Option Str)

unfoldable pub add_statuses : Statuses → List Row → Statuses
add_statuses statuses [] = statuses
add_statuses statuses (row ∷ rows) =
    add_statuses
      (insert (row_get (codes "Project") (some []) row, row_get (codes "Sanitizer") (some []) row)
        (row_get (codes "Status") (some []) row, row_get (codes "Message") (some []) row) statuses)
      rows

unfoldable pub read_statuses : Option Table → Statuses
unfolding add_statuses dict_reader row_get
read_statuses none = []
read_statuses (some table) = add_statuses [] (dict_reader table)

abbrev first_row : List Row → Option Row
first_row [] = none
first_row (row ∷ rows) = some row

unfoldable pub read_summary : Option Table → Option Row
unfolding dict_reader
read_summary none = none
read_summary (some table) = first_row (dict_reader table)

abbrev pub summary_fields : List Str
summary_fields =
    codes "Original Checks"
    ∷ codes "Core Checks"
    ∷ codes "Core / All"
    ∷ codes "Removed Checks"
    ∷ codes "Removed / All"
    ∷ codes "Removed / Core"
    ∷ codes "Runtime Native"
    ∷ codes "Runtime Before"
    ∷ codes "Runtime After"
    ∷ codes "Sanitizer Overhead %"
    ∷ codes "DESAN Overhead %"
    ∷ codes "Overhead Reduction %"
    ∷ []

abbrev pub field_names : List Str
field_names =
    codes "Project" ∷ codes "Sanitizer" ∷ codes "Status" ∷ codes "Message" ∷ summary_fields

-- `row.update({name: summary.get(name, "")})` for each of the names
unfoldable pub copy_summary : List Str → Row → Row → Row
copy_summary [] summary row = row
copy_summary (name ∷ names) summary row =
    copy_summary names summary (insert name (row_get name (some []) summary) row)

-- `if summary: …`: an empty dict is no summary, and would set the same empty texts.
unfoldable pub add_summary : Option Row → Row → Row
unfolding copy_summary
add_summary none row = row
add_summary (some []) row = row
add_summary (some (entry ∷ summary)) row = copy_summary summary_fields (entry ∷ summary) row

unfoldable pub project_row : Statuses → Str → Str → Option Row → Row
unfolding add_summary empty_row lookup
project_row statuses project sanitizer summary =
    let status = get (some project, some sanitizer) (some [], some []) statuses in
    add_summary summary (
      insert (codes "Message") status.1 (
        insert (codes "Status") status.0 (
          insert (codes "Sanitizer") (some sanitizer)
            (insert (codes "Project") (some project) (empty_row field_names)))))

abbrev pub summary_path : Str → Str → Str
summary_path project sanitizer =
    project ++ codes "-" ++ sanitizer ++ codes "-after-read-check-elimination-summary.csv"

unfoldable pub project_rows : (Str → Option Table) → Statuses → Str → List Str → List Row
unfolding project_row read_summary
project_rows csv statuses project [] = []
project_rows csv statuses project (sanitizer ∷ sanitizers) =
    project_row statuses project sanitizer (read_summary (csv (summary_path project sanitizer)))
    ∷ project_rows csv statuses project sanitizers

-- The rows of `main`, for the projects and the sanitizers of the arguments.
unfoldable pub main : (Str → Option Table) → List Str → List Str → List Row
unfolding project_rows read_statuses
main csv [] sanitizers = []
main csv (project ∷ projects) sanitizers =
    let statuses =
      read_statuses (csv (codes "oss-batch-after-read-check-elimination-status.csv")) in
    project_rows csv statuses project sanitizers ++ main csv projects sanitizers

abbrev pub NoDash : Str → Type 0
NoDash name = contains b'-' name ≡ false

before_dash-NoDash : (name : Str) → NoDash (before_dash name)
unfolding before_dash contains
before_dash-NoDash [] = refl
before_dash-NoDash (c ∷ s) = elim (Bool-cases (c == b'-')) [
  | inl e ↦ rw e
  | inr e ↦ rw (e, e) (before_dash-NoDash s)
]

insert_name-NoDash :
    (x : Str) (ys : List Str) → NoDash x → All NoDash ys → All NoDash (insert_name x ys)
unfolding insert_name
insert_name-NoDash x [] h k = (h, tt)
insert_name-NoDash x (y ∷ ys) h (ky, k) = elim (Bool-cases (x == y)) [
  | inl e ↦ rw e (ky, k)
  | inr e ↦ elim (Bool-cases (str_lt x y)) [
    | inl l ↦ rw (e, l) (h, (ky, k))
    | inr l ↦ rw (e, l) (ky, insert_name-NoDash x ys h k)
  ]
]

-- Whatever summaries there are, no project of the default list has a dash in its name.
pub default_projects-NoDash : (names : List Str) → All NoDash (default_projects names)
unfolding default_projects sorted_names
default_projects-NoDash [] = tt
default_projects-NoDash (name ∷ names) =
    insert_name-NoDash (before_dash name) (default_projects names) (before_dash-NoDash name)
      (default_projects-NoDash names)
