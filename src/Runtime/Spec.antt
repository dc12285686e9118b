-- ===== src/Runtime/Spec.antt =====
-- `parse_runtime_csv` of scripts/spec_asan_summary.py, scripts/spec_asanmm_summary.py and
-- scripts/spec_sanrazor_summary.py. The first takes a benchmark's name as it stands in the table, and
-- the others drop a final "(base)" or "(peak)": how a name is read is an argument.
use desan.Prelude.{
  ℕ, zero, suc, Bool, true, false, ◌&&◌, ◌||◌, not, Option, none, some, List, [], ◌∷◌, Dict, lookup,
  insert, nat_eq, list_eq, ◌==◌, if◌then◌else◌,
}
use desan.Py.Text.{Str, codes, strip, starts_with, is_digit, or_text}
use desan.Py.Table.{Table}
use desan.Py.Float.{FloatOps}
use desan.Runtime.{numeric}

-- `{"time": …, "status": …}`
pub record RunResult {ℓ} (T : Type ℓ) : Type ℓ where
  pub time : Option T
  pub status : Str

-- `{name: i for i, name in enumerate(row)}`
unfoldable pub header_from : ℕ → List Str → Dict Str ℕ → Dict Str ℕ
header_from i [] d = d
header_from i (name ∷ row) d = header_from (suc i) row (insert name i d)

unfoldable pub item_at : List Str → ℕ → Option Str
item_at [] i = none
item_at (x ∷ xs) zero = some x
item_at (x ∷ xs) (suc i) = item_at xs i

-- `row[idx] if idx is not None and idx < len(row) else None`, for `idx = header.get(name)`
unfoldable pub cell : Dict Str ℕ → Str → List Str → Option Str
unfolding lookup item_at
cell header name row = elim (lookup name header) [ none ↦ none | some idx ↦ item_at row idx ]

-- `cell.strip()`, or the empty text
abbrev pub stripped : Option Str → Str
stripped none = []
stripped (some s) = strip s

-- `re.match(r"^\d{3}\.", bench)`
unfoldable pub is_spec_name : Str → Bool
is_spec_name (a ∷ b ∷ c ∷ d ∷ s) = is_digit a && is_digit b && is_digit c && d == b'.'
is_spec_name _ = false

abbrev pub is_none {ℓ} : {A : Type ℓ} → Option A → Bool
is_none none = true
is_none (some a) = false

module _ {ℓ} {T : Type ℓ} where
  -- Whether a row replaces what is known of its benchmark: `old is None or (old["time"] is None and
  -- run_time is not None) or selected == "1"`.
  unfoldable pub replaces : Option (RunResult T) → Option T → Str → Bool
  replaces none run_time selected = true
  replaces (some old) run_time selected =
      (is_none old.time && not (is_none run_time)) || selected == codes "1"

  unfoldable pub record_run :
      Str → Option T → Str → Str → Dict Str (RunResult T) → Dict Str (RunResult T)
  unfolding replaces
  record_run bench run_time status selected results =
      if replaces (lookup bench results) run_time selected
      then insert bench (record { time = run_time; status = or_text status (codes "NR") }) results
      else results

module _ (F : FloatOps) (name_of : Str → Str) where
  open F use {Float}

  abbrev pub Results : Type 0
  Results = Dict Str (RunResult Float)

  -- A row of a benchmark, below a header.
  unfoldable pub benchmark_row : Dict Str ℕ → List Str → Str → Results → Results
  unfolding cell is_spec_name record_run
  benchmark_row header row first results =
      let bench = name_of first in
      if is_spec_name bench
      then record_run bench (numeric F (cell header (codes "Est. Base Run Time") row))
          (stripped (cell header (codes "Base Status") row))
          (stripped (cell header (codes "Base Selected") row)) results
      else results

  -- `header` and `results`, after a row.
  unfoldable pub runtime_row :
      Option (Dict Str ℕ) × Results → List Str → Option (Dict Str ℕ) × Results
  unfolding benchmark_row header_from
  runtime_row (header, results) [] = (header, results)
  runtime_row (header, results) (first ∷ row) =
      if first == codes "Benchmark" then (some (header_from 0 (first ∷ row) []), results) else (
        header,
        elim header [
          | none ↦ results
          | some h ↦
              if starts_with first (codes "\"")
              then results
              else benchmark_row h (first ∷ row) first results
        ],
      )

  unfoldable pub runtime_rows :
      Option (Dict Str ℕ) × Results → Table → Option (Dict Str ℕ) × Results
  unfolding runtime_row
  runtime_rows st [] = st
  runtime_rows st (row ∷ rows) = runtime_rows (runtime_row st row) rows

  -- Each table starts without a header. The tables are those that the paths and the files give.
  unfoldable pub runtime_tables : Results → List Table → Results
  unfolding runtime_rows
  runtime_tables results [] = results
  runtime_tables results (table ∷ tables) =
      runtime_tables (runtime_rows (none, results) table).1 tables

-- `parse_runtime_csv` of scripts/spec_asan_summary.py
unfoldable pub parse_runtime_csv : (F : FloatOps) → List Table → Dict Str (RunResult F.Float)
unfolding runtime_tables
parse_runtime_csv F tables = runtime_tables F strip [] tables
