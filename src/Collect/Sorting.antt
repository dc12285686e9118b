-- ===== src/Collect/Sorting.antt =====
-- scripts/collect_all_results.py: `sort_key` and the order of the rows in the table.
use desan.Prelude.{
  ℕ, Bool, ◌&&◌, ◌||◌, Option, List, [], ◌∷◌, nat_eq, list_eq, option_eq, pair_eq, ◌==◌, ltb,
  if◌then◌else◌,
}
use desan.Py.Text.{Str, codes}
use desan.Py.Table.{Row}
use desan.CountChecks.{str_lt}
use desan.Records.{is_text, or_text?, field}
use desan.Collect.{sanitizer_of}

-- The two orders of `sort_key`, with 99 for a name that is not listed.
abbrev pub group_order : Option Str → ℕ
group_order g =
    if is_text g (codes "spec-cpu2006")
    then 0
    else if is_text g (codes "spec-cpu2017")
    then 1
    else if is_text g (codes "openssl")
    then 2
    else if is_text g (codes "git")
    then 3
    else if is_text g (codes "opensource")
    then 4
    else 99

abbrev pub sanitizer_order : Option Str → ℕ
sanitizer_order s =
    if is_text s (codes "asan")
    then 0
    else if is_text s (codes "ubsan")
    then 1
    else if is_text s (codes "msan")
    then 2
    else 99

abbrev pub SortKey : Type 0
SortKey = ℕ × (Str × ℕ)

-- `is_excluded_project` has read the benchmark of each row that reaches the sort, which is a text
-- there. One that is no text would be the empty text here, where Python raises a `TypeError`.
unfoldable pub sort_key : Row → SortKey
sort_key row = (
  group_order (field (codes "Result Group") row),
  (or_text? (field (codes "Benchmark") row) [], sanitizer_order (sanitizer_of row)),
)

-- The order of tuples.
unfoldable pub key_lt : SortKey → SortKey → Bool
unfolding str_lt
key_lt (g, (b, s)) (g', (b', s')) = ltb g g' || (g == g' && (str_lt b b' || (b == b' && ltb s s')))

unfoldable pub insert_row : Row → List Row → List Row
unfolding key_lt sort_key
insert_row x [] = x ∷ []
insert_row x (y ∷ ys) = if key_lt (sort_key y) (sort_key x) then y ∷ insert_row x ys else x ∷ y ∷ ys

-- `rows.sort(key=sort_key)`: a row goes before the rows behind it whose keys are not smaller.
unfoldable pub sort_rows : List Row → List Row
unfolding insert_row
sort_rows [] = []
sort_rows (x ∷ xs) = insert_row x (sort_rows xs)
