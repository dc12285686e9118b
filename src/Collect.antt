-- ===== src/Collect.antt =====
-- scripts/collect_all_results.py: the rows of all summaries in one table, less the rows and the
-- projects that the evaluation leaves out.
pub mod Filters
pub mod FilterLaws
pub mod SingleLaws
pub mod RowLaws
pub mod Sorting
pub mod SortLaws
pub mod Main
pub mod Output
use desan.Prelude.{
  ℕ, zero, suc, ◌+◌, ◌≡◌, refl, Bool, true, false, ◌&&◌, ◌||◌, not, Option, none, some, List, [],
  ◌∷◌, ◌++◌, Dict, get, lookup, insert, update, keys, contains, length, Key, nat_eq, list_eq,
  list_beq, option_eq, pair_eq, ◌==◌, ltb, leb, if◌then◌else◌,
}
use desan.Py.Result.{Result, ok, err, ◌>>=◌, PyError}
use desan.Py.Text.{Str, codes, starts_with, strip}
use desan.Py.Table.{Table, Row, dict_reader, row_get}
use desan.Py.Float.{FloatOps}
use desan.CountChecks.{lower, str_lt}
use desan.Records.{is_text, or_text?, field}
use desan.Records.Asanmm.{drop_suffix}

abbrev pub field_names : List Str
field_names =
    codes "Result Group"
    ∷ codes "Suite"
    ∷ codes "Benchmark"
    ∷ codes "Sanitizer"
    ∷ codes "Compile Units"
    ∷ codes "Fallback Units"
    ∷ codes "Original Checks"
    ∷ codes "Core Checks"
    ∷ codes "Core / All"
    ∷ codes "Removed Checks"
    ∷ codes "Removed / All"
    ∷ codes "Removed / Core"
    ∷ codes "Runtime Native"
    ∷ codes "Runtime Before"
    ∷ codes "Runtime After"
    ∷ codes "Sanitizer Overhead %"
    ∷ codes "DESAN Overhead %"
    ∷ codes "Overhead Reduction %"
    ∷ codes "Native Status"
    ∷ codes "Before Status"
    ∷ codes "After Status"
    ∷ codes "Source Summary"
    ∷ []

abbrev pub excluded_benchmarks : List Str
excluded_benchmarks =
    codes "findutils" ∷ codes "gawk" ∷ codes "json-c" ∷ codes "pigz" ∷ codes "sqlite" ∷ []

abbrev pub sanitizers : List Str
sanitizers = codes "asan" ∷ codes "ubsan" ∷ codes "msan" ∷ []

unfoldable pub result_group : Str → Option Str → Str
unfolding starts_with
result_group stem suite =
    if starts_with stem (codes "spec-cpu2006")
    then codes "spec-cpu2006"
    else if starts_with stem (codes "spec-cpu2017")
    then codes "spec-cpu2017"
    else if stem == codes "openssl" || stem == codes "git"
    then stem
    else if is_text suite (codes "OpenSource")
    then codes "opensource"
    else or_text? suite stem

-- `SUMMARY_RE.match(name)`: the project's name and the sanitizer. No name ends in two of the tails.
abbrev summary_tail : Str
summary_tail = codes "-after-read-check-elimination-summary.csv"

abbrev with_sanitizer : Str → Option Str → Option (Str × Str)
with_sanitizer s none = none
with_sanitizer s (some []) = none
with_sanitizer s (some (c ∷ name)) = some (c ∷ name, s)

unfoldable pub or_next {ℓ} : {A : Type ℓ} → Option A → Option A → Option A
or_next none next = next
or_next (some a) next = some a

unfoldable pub summary_name : Str → Option (Str × Str)
unfolding drop_suffix or_next
summary_name name =
    or_next (with_sanitizer (codes "asan") (drop_suffix (codes "-asan" ++ summary_tail) name)) (
      or_next (with_sanitizer (codes "ubsan") (drop_suffix (codes "-ubsan" ++ summary_tail) name))
        (with_sanitizer (codes "msan") (drop_suffix (codes "-msan" ++ summary_tail) name)))

-- `value.strip()`: `None` has no such method.
unfoldable pub strip_or_raise : Option Str → Result Str
strip_or_raise none = err PyError.attribute_error
strip_or_raise (some s) = ok (strip s)

-- `all(…)` stops at the first status that is not `S`.
unfoldable pub is_successful_runtime : Row → Result Bool
unfolding strip_or_raise
is_successful_runtime row = strip_or_raise (field (codes "Native Status") row) >>= λ native.
    if native == codes "S"
    then (strip_or_raise (field (codes "Before Status") row) >>= λ before.
        if before == codes "S"
        then (strip_or_raise (field (codes "After Status") row) >>= λ after.
            ok (after == codes "S"))
        else ok false)
    else ok false

unfoldable pub is_excluded_project : Row → Result Bool
unfolding strip_or_raise lower
is_excluded_project row = do
  name ← strip_or_raise (field (codes "Benchmark") row)
  ok (contains (lower name) excluded_benchmarks)

module _ (F : FloatOps) where
  -- `numeric`: `str(None)` is no number.
  unfoldable pub numeric : Option Str → Option F.Float
  numeric none = none
  numeric (some s) = F.parse (strip s)

  unfoldable pub has_inserted_checks : Row → Bool
  unfolding numeric
  has_inserted_checks row = elim (numeric (field (codes "Original Checks") row)) [
    | none ↦ false
    | some n ↦ F.lt F.zero n
  ]

  unfoldable pub has_negative_overhead_reduction : Row → Bool
  unfolding numeric
  has_negative_overhead_reduction row = elim (numeric (field (codes "Overhead Reduction %") row)) [
    | none ↦ false
    | some r ↦ F.lt r F.zero
  ]

-- `(row["Result Group"], row["Benchmark"])`
abbrev pub Project : Type 0
Project = Option Str × Option Str

abbrev pub project_key : Row → Project
project_key row = (field (codes "Result Group") row, field (codes "Benchmark") row)

abbrev pub sanitizer_of : Row → Option Str
sanitizer_of row = field (codes "Sanitizer") row

-- `row["Sanitizer"] in SANITIZERS`
unfoldable pub is_sanitized : Row → Bool
is_sanitized row =
    is_text (sanitizer_of row) (codes "asan")
    || is_text (sanitizer_of row) (codes "ubsan")
    || is_text (sanitizer_of row) (codes "msan")

-- `[row for row in rows if keep(row)]`
unfoldable pub keep_rows : (Row → Bool) → List Row → List Row
keep_rows keep [] = []
keep_rows keep (row ∷ rows) =
    let rest = keep_rows keep rows in if keep row then row ∷ rest else rest
