-- ===== src/Apply.antt =====
-- scripts/apply_sanrazor_detected_disabled_counts.py: the rows of a SanRazor summary with the disabled
-- handlers as the removed checks, and the table that `csv.DictWriter` makes of them.
pub mod Fields
pub mod Rewrite
use desan.Prelude.{
  map, ℕ, Bool, true, false, ◌||◌, ◌&&◌, not, Option, none, some, List, [], ◌∷◌, ◌++◌, Dict, lookup,
  insert, keys, contains, nat_eq, list_eq, option_eq, pair_eq, ◌==◌, if◌then◌else◌,
}
use desan.Prelude.Int.{ℤ, pos, ◌-ℤ◌, pos_part, is_zero}
use desan.Py.Result.{Result, ok, err, ◌>>=◌, PyError}
use desan.Py.Text.{Str, codes}
use desan.Py.Table.{Table, Row, dict_reader, dict_reader_whole, row_get}
use desan.Py.Float.{FloatOps}
use desan.Records.{field, is_text}
use desan.Summary.{percent_of}

-- A value of a row that is written: what `DictReader` gives, for a field or for the key `None`, or a
-- number.
pub data Value {ℓ} (T : Type ℓ) : Type ℓ where
  read : Option Str → Value T
  surplus : List Str → Value T
  whole : ℤ → Value T
  ratio : Option T → Value T

-- `max(0, original - detected_removed)`
unfoldable pub left_checks : ℤ → ℤ → ℤ
unfolding ◌-ℤ◌
left_checks original detected = pos (pos_part (original -ℤ detected))

-- `except (TypeError, ValueError): return default`
abbrev pub default_to_zero : Result ℤ → Result ℤ
default_to_zero (err PyError.type_error) = ok (pos 0)
default_to_zero (err PyError.value_error) = ok (pos 0)
default_to_zero (err e) = err e
default_to_zero (ok n) = ok n

-- `access`, with the rows that are no total of a level
abbrev pub Access : Type 0
Access = Dict (Option Str × Option Str) Row

abbrev pub is_bench : Option Str → Bool
is_bench none = false
is_bench (some []) = false
is_bench (some (c ∷ s)) = not ((c ∷ s) == codes "TOTAL")

abbrev access_key : Row → Option Str × Option Str
access_key row = (row_get (codes "Level") (some []) row, row_get (codes "Benchmark") (some []) row)

unfoldable pub read_access : Access → List Row → Access
unfolding row_get
read_access access [] = access
read_access access (row ∷ rows) =
    read_access
      (if is_bench (row_get (codes "Benchmark") (some []) row)
        then insert (access_key row) row access
        else access)
      rows

module _ (F : FloatOps) (to_int : F.Float → Result ℤ) where
  open F use {Float}

  abbrev pub OutRow : Type 0
  OutRow = Dict (Option Str) (Value Float)

  -- `int(float(value))`, for what `int` makes of a float
  abbrev float_to_int : Option Float → Result ℤ
  float_to_int none = err PyError.value_error
  float_to_int (some x) = to_int x

  -- `number`: `float(None)` is a `TypeError`
  unfoldable pub number : Option Str → Result ℤ
  number none = default_to_zero (err PyError.type_error)
  number (some s) = default_to_zero (float_to_int (F.parse s))

  -- `dict(row)`, of a row with its surplus
  abbrev surplus_value : List Str → OutRow
  surplus_value [] = []
  surplus_value (cell ∷ more) = (none, surplus (cell ∷ more)) ∷ []

  unfoldable pub as_values : Row → List Str → OutRow
  as_values [] extra = surplus_value extra
  as_values ((name, value) ∷ row) extra = (some name, read value) ∷ as_values row extra

  abbrev pub set : Option Str → Value Float → OutRow → OutRow
  set name value row = insert name value row

  -- The numbers of a row and its access row
  pub record Numbers : Type 0 where
    pub original : ℤ
    pub reported : ℤ
    pub detected : ℤ
    pub share : Option Float
    pub reads : ℤ
    pub writes : ℤ
    pub unknowns : ℤ

  unfoldable pub numbers_of : Row → Row → Result Numbers
  unfolding number percent_of
  numbers_of row access = do
    original ← number (field (codes "Original Checks") row)
    reported ← number (field (codes "Removed Checks") row)
    detected ← number (field (codes "Removed Checks") access)
    share ← percent_of F detected original
    reads ← number (field (codes "Removed READ Checks") access)
    writes ← number (field (codes "Removed WRITE Checks") access)
    unknowns ← number (field (codes "Removed UNKNOWN Checks") access)
    ok (record {
      original = original;
      reported = reported;
      detected = detected;
      share = share;
      reads = reads;
      writes = writes;
      unknowns = unknowns;
    })

  -- The assignments to the copy of a row, in their order
  unfoldable pub assigned : Row → Numbers → List (Option Str × Value Float)
  unfolding left_checks row_get
  assigned access n =
      (some (codes "SanRazor Reported Removed Checks"), whole n.reported)
      ∷ (
        some (codes "Detected / Reported"),
        read (row_get (codes "Detected / Reported") (some []) access),
      )
      ∷ (some (codes "Removed Checks"), whole n.detected)
      ∷ (some (codes "SanRazor Checks"), whole (left_checks n.original n.detected))
      ∷ (some (codes "Removed / Original"), ratio n.share)
      ∷ (some (codes "Removed READ Checks"), whole n.reads)
      ∷ (some (codes "Removed WRITE Checks"), whole n.writes)
      ∷ (some (codes "Removed UNKNOWN Checks"), whole n.unknowns)
      ∷ (some (codes "READ / Removed"), read (row_get (codes "READ / Removed") (some []) access))
      ∷ (some (codes "WRITE / Removed"), read (row_get (codes "WRITE / Removed") (some []) access))
      ∷ (
        some (codes "UNKNOWN / Removed"),
        read (row_get (codes "UNKNOWN / Removed") (some []) access),
      )
      ∷ []

  unfoldable pub assign : List (Option Str × Value Float) → OutRow → OutRow
  assign [] row = row
  assign ((name, value) ∷ values) row = assign values (set name value row)

  unfoldable pub rewrite_row : Row → List Str → Row → Result OutRow
  unfolding numbers_of assigned assign as_values
  rewrite_row row extra access =
      numbers_of row access >>= λ n. ok (assign (assigned access n) (as_values row extra))

  -- A row without an access row, or with an empty one, stays as it is.
  abbrev pub out_row : Row → List Str → Option Row → Result OutRow
  out_row row extra none = ok (as_values row extra)
  out_row row extra (some []) = ok (as_values row extra)
  out_row row extra (some (entry ∷ access)) = rewrite_row row extra (entry ∷ access)

  abbrev pub row_key : Row → Option Str × Option Str
  row_key row =
      (row_get (codes "SanRazor Level") (some []) row, row_get (codes "Benchmark") (some []) row)

  unfoldable pub out_rows : Access → List (Row × List Str) → Result (List OutRow)
  unfolding rewrite_row as_values row_get lookup
  out_rows access [] = ok []
  out_rows access ((row, extra) ∷ rows) = do
    out ← out_row row extra (lookup (row_key row) access)
    rest ← out_rows access rows
    ok (out ∷ rest)

  abbrev pub preferred : List Str
  preferred =
      codes "Suite"
      ∷ codes "Benchmark"
      ∷ codes "SanRazor Level"
      ∷ codes "Original Checks"
      ∷ codes "SanRazor Checks"
      ∷ codes "Removed Checks"
      ∷ codes "Removed / Original"
      ∷ codes "SanRazor Reported Removed Checks"
      ∷ codes "Detected / Reported"
      ∷ codes "Removed READ Checks"
      ∷ codes "Removed WRITE Checks"
      ∷ codes "Removed UNKNOWN Checks"
      ∷ codes "READ / Removed"
      ∷ codes "WRITE / Removed"
      ∷ codes "UNKNOWN / Removed"
      ∷ []

  -- `for field in …: if field in out_rows[0] and field not in fieldnames: fieldnames.append(field)`
  unfoldable pub field_names_from :
      List (Option Str) → List (Option Str) → List (Option Str) → List (Option Str)
  field_names_from present names [] = names
  field_names_from present names (name ∷ more) =
      field_names_from present
        (if contains name present && not (contains name names) then names ++ (name ∷ []) else names)
        more

  -- `out_rows[0]` of no rows is an `IndexError`.
  unfoldable pub field_names : List OutRow → Result (List (Option Str))
  unfolding field_names_from keys
  field_names [] = err PyError.index_error
  field_names (row ∷ rows) = ok (field_names_from (keys row) [] (map some preferred ++ keys row))

  abbrev pub all_in : List (Option Str) → List (Option Str) → Bool
  all_in [] names = true
  all_in (x ∷ xs) names = contains x names && all_in xs names

  abbrev cells : List (Option Str) → OutRow → List (Option (Value Float))
  cells [] row = []
  cells (name ∷ names) row = lookup name row ∷ cells names row

  -- `writer.writerows(out_rows)`: a row with another key than the field names' is a `ValueError`, and
  -- a field that a row does not have is left empty.
  unfoldable pub write_rows :
      List (Option Str) → List OutRow → Result (List (List (Option (Value Float))))
  unfolding lookup keys contains
  write_rows names [] = ok []
  write_rows names (row ∷ rows) =
      let rest = write_rows names rows in
      if all_in (keys row) names
      then (rest >>= λ written. ok (cells names row ∷ written))
      else err PyError.value_error

  -- The table of some rows
  unfoldable pub write_table :
      List OutRow → Result (List (Option Str) × List (List (Option (Value Float))))
  unfolding field_names write_rows
  write_table rows = do
    names ← field_names rows
    written ← write_rows names rows
    ok (names, written)

  -- The .csv file of `main`: the field names and the rows.
  unfoldable pub main :
      Table → Table → Result (List (Option Str) × List (List (Option (Value Float))))
  unfolding read_access out_rows write_table dict_reader dict_reader_whole
  main summary access_table =
      out_rows (read_access [] (dict_reader access_table)) (dict_reader_whole summary) >>= λ rows.
      write_table rows
