-- ===== src/Tests/Apply.antt =====
-- The rewriting of a SanRazor row, and a table of two rows.
use desan.Prelude.{List, option_eq, if◌then◌else◌, keys, none, nat_eq, list_eq, ◌≡◌, [], ◌∷◌, some}
use desan.Apply.Fields.{names_of_first, rows_in, cells_of, write_table-cases}
use desan.Apply.{set, Numbers, OutRow, read, write_table, as_values}
use desan.Prelude.Int.{ℤ, pos}
use desan.Py.Result.{Result, ok, err, value_error, index_error}
use desan.Py.Text.{Str, codes}
use desan.Py.Table.{Row}
use desan.Tests.Floats.{whole}

abbrev to_int : ℤ → Result ℤ
to_int n = ok n

abbrev row : Row
row =
    (codes "Benchmark", some (codes "470.lbm"))
    ∷ (codes "Original Checks", some (codes "7"))
    ∷ (codes "Removed Checks", some (codes "5"))
    ∷ []

-- The cells behind the last field
abbrev extra : List Str
extra = codes "old" ∷ []

abbrev access : Row
access =
    (codes "Removed Checks", some (codes "9"))
    ∷ (codes "Removed READ Checks", some (codes "3"))
    ∷ (codes "Removed WRITE Checks", some (codes "x"))
    ∷ []

abbrev numbers : Numbers whole to_int
numbers = record {
  original = pos 7;
  reported = pos 5;
  detected = pos 9;
  share = some (pos 100);
  reads = pos 3;
  writes = pos 0;
  unknowns = pos 0;
}

abbrev first : OutRow whole to_int
first = as_values whole to_int row extra

abbrev second : OutRow whole to_int
second = set whole to_int (some (codes "Suite")) (read none) first

write_table-cases_example :
    (write_table whole to_int [] ≡ err index_error)
    × (write_table whole to_int (first ∷ second ∷ []) ≡ (
        if rows_in whole to_int (second ∷ []) (keys first)
        then ok (
          names_of_first whole to_int first,
          cells_of whole to_int (names_of_first whole to_int first) (first ∷ second ∷ []),
        )
        else err value_error))
write_table-cases_example = write_table-cases whole to_int first (second ∷ [])
