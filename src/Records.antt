-- ===== src/Records.antt =====
-- `parse_records` of the four summaries: the compile records that the compiler wrapper writes, summed
-- up for one benchmark (scripts/opensource_summary.py, scripts/opensource_asanmm_summary.py) or for
-- each benchmark that occurs (scripts/spec_asan_summary.py, scripts/spec_asanmm_summary.py).
pub mod Asan
pub mod Asanmm
pub mod Grouping
pub mod Bounds
pub mod Projects
use desan.Prelude.{
  Bool, true, false, ◌||◌, Option, none, some, List, [], ◌∷◌, Dict, get, insert, ◌==◌, nat_eq,
  list_eq, Key, if◌then◌else◌,
}
use desan.Py.Result.{Result, ok, err, ◌>>=◌}
use desan.Py.Text.{Str, codes, or_text}
use desan.Py.Table.{Table, Row, dict_reader, row_get}

-- `value == text` for a value that may be `None`
abbrev pub is_text : Option Str → Str → Bool
is_text none t = false
is_text (some s) t = s == t

-- `value or text` for a value that may be `None`
abbrev pub or_text? : Option Str → Str → Str
or_text? none t = t
or_text? (some s) t = or_text s t

-- `rec.get(name)`
abbrev pub field : Str → Row → Option Str
field name rec = row_get name none rec

-- The rows of a `csv.DictReader` over each of the files that exist, in the order of the paths.
unfoldable pub read_tables : (Str → Option Table) → List Str → List (List Row)
unfolding dict_reader
read_tables csv [] = []
read_tables csv (path ∷ paths) = elim (csv path) [
  | none ↦ read_tables csv paths
  | some table ↦ dict_reader table ∷ read_tables csv paths
]

module _ {T : Type 0} (keep : Row → Bool) (add : Row → T → Result T) where
  unfoldable pub sum_record : T → Row → Result T
  sum_record row rec = if keep rec then add rec row else ok row

  -- The loop over the records, into one sum.
  unfoldable pub sum_records : T → List Row → Result T
  unfolding sum_record
  sum_records row [] = ok row
  sum_records row (rec ∷ recs) = sum_record row rec >>= λ row'. sum_records row' recs

  -- The loop over the records, into one sum for each benchmark:
  -- `row = rows.setdefault(bench, zero)`, and `row` is updated in place.
  module _ (bench_of : Row → Str) (zero : T) where
    unfoldable pub group_record : Dict Str T → Row → Result (Dict Str T)
    group_record rows rec =
        if keep rec
        then (add rec (get (bench_of rec) zero rows) >>= λ row. ok (insert (bench_of rec) row rows))
        else ok rows

    unfoldable pub group_records : Dict Str T → List Row → Result (Dict Str T)
    unfolding group_record
    group_records rows [] = ok rows
    group_records rows (rec ∷ recs) = group_record rows rec >>= λ rows'. group_records rows' recs

    -- `for path in paths`
    unfoldable pub group_tables : Dict Str T → List (List Row) → Result (Dict Str T)
    unfolding group_records
    group_tables rows [] = ok rows
    group_tables rows (recs ∷ tables) =
        group_records rows recs >>= λ rows'. group_tables rows' tables
