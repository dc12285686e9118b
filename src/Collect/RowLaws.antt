-- ===== src/Collect/RowLaws.antt =====
-- scripts/collect_all_results.py: the fields of the rows that are written. `csv.DictWriter` raises a
-- `ValueError` at a row with a key that is none of its field names.
use desan.Prelude.{
  ◌≡◌, refl, ◌∙◌, true, Option, none, some, List, [], ◌∷◌, lookup, insert, keys, contains, nat_eq,
  list_eq, list_beq, ◌==◌, All, Bool-cases, inl, inr, arith,
}
use desan.Py.Text.{Str, codes}
use desan.Py.Table.{Row, row_get}
use desan.Collect.{field_names, result_group}
use desan.Collect.Main.{empty_row, copy_field, copy_fields, result_row}

keys-insert_known :
    (k : Str) (v : Option Str) (row : Row)
    → contains k (keys row) ≡ true
    → keys (insert k v row) ≡ keys row
unfolding keys insert contains
keys-insert_known k v [] h = cc
keys-insert_known k v ((j, w) ∷ row) h = elim (Bool-cases (j == k)) [
  | inl e ↦ rw e
  | inr e ↦ rw (e, keys-insert_known k v row (rw e at h))
]

keys-empty_row : (names : List Str) → keys (empty_row names) ≡ names
unfolding keys empty_row
keys-empty_row [] = refl
keys-empty_row (name ∷ names) = rw (keys-empty_row names)

abbrev Known : List Str → List Str → Type 0
Known fields names = All (λ name. contains name fields ≡ true) names

keys-copy_field :
    (name : Str) (found : Option (Option Str)) (row : Row)
    → contains name (keys row) ≡ true
    → keys (copy_field name found row) ≡ keys row
unfolding copy_field
keys-copy_field name none row h = refl
keys-copy_field name (some value) row h = keys-insert_known name value row h

keys-copy_fields :
    (fields names : List Str) (summary row : Row)
    → keys row ≡ fields
    → Known fields names
    → keys (copy_fields names summary row) ≡ fields
unfolding copy_fields
keys-copy_fields fields [] summary row e h = e
keys-copy_fields fields (name ∷ names) summary row e (k, h) =
    keys-copy_fields fields names summary (copy_field name (lookup name summary) row)
      (keys-copy_field name (lookup name summary) row (rw e k) ∙ e) h

fields-Known : Known field_names field_names
unfolding contains list_beq
fields-Known = ground arith

-- A field of the table is set in a row with all the fields.
set_field :
    (name : Str) (value : Option Str) (row : Row)
    → contains name field_names ≡ true
    → keys row ≡ field_names
    → keys (insert name value row) ≡ field_names
set_field name value row k e = keys-insert_known name value row (rw e k) ∙ e

-- Whatever a summary has for columns, and whatever the file's name says, the row that is made from it
-- has exactly the fields of the table, each once and in their order.
pub keys-result_row :
    (stem sanitizer source : Str) (summary : Row)
    → keys (result_row stem sanitizer source summary) ≡ field_names
unfolding result_row contains list_beq
keys-result_row stem sanitizer source summary =
    let suite = row_get (codes "Suite") (some []) summary in
    let benchmark = row_get (codes "Benchmark") (some []) summary in
    keys-copy_fields field_names field_names summary _
      (set_field (codes "Source Summary") (some source) _ refl (
        set_field (codes "Sanitizer") (some sanitizer) _ refl (
          set_field (codes "Benchmark") benchmark _ refl (
            set_field (codes "Suite") suite _ refl (
              set_field (codes "Result Group") (some (result_group stem suite)) _ refl
                (keys-empty_row field_names))))))
      fields-Known
