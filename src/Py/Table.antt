-- ===== src/Py/Table.antt =====
-- `csv.reader` and `csv.DictReader`. A table is the list of the rows that `csv.reader` yields for an
-- open file, blank lines included; how the module cuts a text into fields is not modelled.
use desan.Prelude.{
  ◌≡◌, refl, ap, ◌++◌, Option, none, some, List, [], ◌∷◌, Dict, lookup, insert, or_default, nat_eq,
  list_eq, list_beq,
}
use desan.Py.Text.{Str, codes}

abbrev pub Table : Type 0
Table = List (List Str)

-- A row as `DictReader` gives it. A field that the row is too short for is `None`. The surplus of
-- a long row, which stands under the key `None`, is no field that is read by its name: see
-- `dict_reader_whole` for the scripts that write rows again.
abbrev pub Row : Type 0
Row = Dict Str (Option Str)

-- `d = dict(zip(fieldnames, row))`, then `None` for each field name that is left.
zip_row : List Str → List Str → Row → Row
zip_row [] row d = d
zip_row (name ∷ names) [] d = zip_row names [] (insert name none d)
zip_row (name ∷ names) (value ∷ row) d = zip_row names row (insert name (some value) d)

dict_rows : List Str → List (List Str) → List Row
unfolding zip_row
dict_rows names [] = []
dict_rows names ([] ∷ rows) = dict_rows names rows
dict_rows names ((v ∷ row) ∷ rows) = zip_row names (v ∷ row) [] ∷ dict_rows names rows

-- `list(csv.DictReader(f))`: the first row names the fields, and blank rows are skipped.
unfoldable pub dict_reader : Table → List Row
unfolding dict_rows insert list_beq
dict_reader [] = []
dict_reader (names ∷ rows) = dict_rows names rows

-- The cells of a row that have no field name
surplus : List Str → List Str → List Str
surplus [] row = row
surplus (name ∷ names) [] = []
surplus (name ∷ names) (value ∷ row) = surplus names row

whole_rows : List Str → List (List Str) → List (Row × List Str)
unfolding zip_row surplus
whole_rows names [] = []
whole_rows names ([] ∷ rows) = whole_rows names rows
whole_rows names ((v ∷ row) ∷ rows) =
    (zip_row names (v ∷ row) [], surplus names (v ∷ row)) ∷ whole_rows names rows

-- The rows with what stands under the key `None`, which a row has if that is not empty.
unfoldable pub dict_reader_whole : Table → List (Row × List Str)
unfolding whole_rows insert list_beq
dict_reader_whole [] = []
dict_reader_whole (names ∷ rows) = whole_rows names rows

dict_rows-append :
    (names : List Str) (rows more : List (List Str))
    → dict_rows names (rows ++ more) ≡ dict_rows names rows ++ dict_rows names more
unfolding dict_rows
dict_rows-append names [] more = refl
dict_rows-append names ([] ∷ rows) more = dict_rows-append names rows more
dict_rows-append names ((v ∷ row) ∷ rows) more =
    ap (λ ds. zip_row names (v ∷ row) [] ∷ ds) (dict_rows-append names rows more)

-- Under one line of field names the rows of two tables are read one after the other.
pub dict_reader-append :
    (names : List Str) (rows more : List (List Str))
    → dict_reader (names ∷ (rows ++ more))
      ≡ dict_reader (names ∷ rows) ++ dict_reader (names ∷ more)
unfolding dict_reader
dict_reader-append = dict_rows-append

-- `row.get(name, default)`: a short row gives `None`, and not the default.
unfoldable pub row_get : Str → Option Str → Row → Option Str
unfolding lookup list_beq
row_get name default row = or_default default (lookup name row)

dict_reader_test :
    dict_reader ((codes "a" ∷ codes "b" ∷ []) ∷ [] ∷ (codes "1" ∷ []) ∷ [])
    ≡ ((codes "a", some (codes "1")) ∷ (codes "b", none) ∷ []) ∷ []
unfolding dict_reader
dict_reader_test = refl
