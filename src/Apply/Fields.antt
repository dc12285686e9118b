-- ===== src/Apply/Fields.antt =====
-- scripts/apply_sanrazor_detected_disabled_counts.py: the field names of the table that is written, and
-- which rows `csv.DictWriter` takes under them.
use desan.Apply.{
  cells, Value, Option, err, keys, Bool, all_in, OutRow, write_rows, preferred, field_names,
  write_table, field_names_from,
}
use desan.Prelude.Int.{ℤ}
use desan.Py.Result.{Result, ok, err, value_error, index_error}
use desan.Prelude.{
  map, some, option_eq, ◌≡◌, refl, sym, ◌∙◌, Bool, true, false, ◌||◌, ◌&&◌, not, Option, List, [],
  ◌∷◌, ◌++◌, keys, contains, nat_eq, list_eq, Key, ◌==◌, Bool-cases, inl, inr, arith, if◌then◌else◌,
}
use desan.Py.Text.{Str}
use desan.Py.Float.{FloatOps}
use desan.RemovedAccess.Order.{contains-append}

module _ (F : FloatOps) (to_int : F.Float → Result ℤ) where
  contains-field_names_from :
      (present names more : List (Option Str)) (x : Option Str)
      → contains x (field_names_from F to_int present names more)
        ≡ (contains x names || (contains x present && contains x more))
  unfolding field_names_from contains
  contains-field_names_from present names [] x = ground arith
  contains-field_names_from present names (name ∷ more) x =
      elim (Bool-cases (contains name present && not (contains name names))) [
        | inl e ↦
            rw
              (
                e,
                contains-field_names_from present (names ++ (name ∷ [])) more x,
                contains-append x names (name ∷ []),
              )
              (elim (Bool-cases (name == x)) [
                | inl h ↦
                    let same = (Key.same_iff option_eq name x).0 h in
                    let inside : contains x present ≡ true = rw (sym same) (ground arith) in
                    rw (h, inside) (ground arith)
                | inr h ↦ rw h (ground arith)
              ])
        | inr e ↦
            rw (e, contains-field_names_from present names more x)
              (elim (Bool-cases (name == x)) [
                | inl h ↦
                    let same = (Key.same_iff option_eq name x).0 h in
                    let f : (contains x present && not (contains x names)) ≡ false =
                      rw (sym same) e in
                    rw h (ground arith)
                | inr h ↦ rw h
              ])
      ]

  contains-preferred_keys :
      (present : List (Option Str)) (x : Option Str)
      → (contains x present && contains x (map some ((preferred F to_int)) ++ present))
        ≡ contains x present
  unfolding contains
  contains-preferred_keys present x =
      rw (contains-append x (map some (preferred F to_int)) present) (ground arith)

  abbrev pub names_of_first : OutRow F to_int → List (Option Str)
  names_of_first row =
      field_names_from F to_int (keys row) [] (map some ((preferred F to_int)) ++ keys row)

  -- The field names are the keys of the first row.
  contains-names_of_first :
      (row : OutRow F to_int) (x : Option Str)
      → contains x (names_of_first row) ≡ contains x (keys row)
  unfolding contains
  contains-names_of_first row x =
      contains-field_names_from (keys row) [] (map some ((preferred F to_int)) ++ keys row) x
      ∙ contains-preferred_keys (keys row) x

  all_in-ext :
      (xs names names' : List (Option Str))
      → ((x : Option Str) → contains x names ≡ contains x names')
      → all_in F to_int xs names ≡ all_in F to_int xs names'
  all_in-ext [] names names' h = refl
  all_in-ext (x ∷ xs) names names' h = rw (h x, all_in-ext xs names names' h)

  all_in-weaken :
      (xs names : List (Option Str)) (y : Option Str)
      → all_in F to_int xs names ≡ true
      → all_in F to_int xs (y ∷ names) ≡ true
  unfolding contains
  all_in-weaken [] names y h = refl
  all_in-weaken (x ∷ xs) names y h = ground (arith, all_in-weaken xs names y)

  all_in_self : (xs : List (Option Str)) → all_in F to_int xs xs ≡ true
  unfolding contains
  all_in_self [] = refl
  all_in_self (x ∷ xs) =
      rw ((Key.same_iff option_eq x x).1 refl) (all_in-weaken xs xs x (all_in_self xs))

  -- Whether no row has a field that is none of the names.
  abbrev pub rows_in : List (OutRow F to_int) → List (Option Str) → Bool
  rows_in [] names = true
  rows_in (row ∷ rows) names = all_in F to_int (keys row) names && rows_in rows names

  rows_in-ext :
      (rows : List (OutRow F to_int)) (names names' : List (Option Str))
      → ((x : Option Str) → contains x names ≡ contains x names')
      → rows_in rows names ≡ rows_in rows names'
  rows_in-ext [] names names' h = refl
  rows_in-ext (row ∷ rows) names names' h =
      rw (all_in-ext (keys row) names names' h, rows_in-ext rows names names' h)

  abbrev pub cells_of :
      List (Option Str) → List (OutRow F to_int) → List (List (Option (Value F.Float)))
  cells_of names [] = []
  cells_of names (row ∷ rows) = cells F to_int names row ∷ cells_of names rows

  write_rows-cases :
      (names : List (Option Str)) (rows : List (OutRow F to_int))
      → write_rows F to_int names rows
        ≡ (if rows_in rows names then ok (cells_of names rows) else err value_error)
  unfolding write_rows
  write_rows-cases names [] = refl
  write_rows-cases names (row ∷ rows) = elim (Bool-cases (all_in F to_int (keys row) names)) [
    | inl e ↦ elim (Bool-cases (rows_in rows names)) [
      | inl f ↦ rw (e, write_rows-cases names rows, f)
      | inr f ↦ rw (e, write_rows-cases names rows, f)
    ]
    | inr e ↦ rw e
  ]

  -- The table of some rows is written exactly if no later row has a field that the first row does not
  -- have; otherwise the writer raises a `ValueError`. Of no rows there are no field names: an
  -- `IndexError`.
  pub write_table-cases :
      (first : OutRow F to_int) (rows : List (OutRow F to_int))
      → (write_table F to_int [] ≡ err index_error)
        × (write_table F to_int (first ∷ rows) ≡ (
            if rows_in rows (keys first)
            then ok (names_of_first first, cells_of (names_of_first first) (first ∷ rows))
            else err value_error))
  unfolding write_table field_names
  write_table-cases first rows =
      let known =
        rows_in-ext (first ∷ rows) (names_of_first first) (keys first)
          (contains-names_of_first first) in
      (
        refl,
        elim (Bool-cases (rows_in rows (keys first))) [
          | inl e ↦ rw (
            write_rows-cases (names_of_first first) (first ∷ rows),
            known,
            all_in_self (keys first),
            e,
          )
          | inr e ↦ rw (
            write_rows-cases (names_of_first first) (first ∷ rows),
            known,
            all_in_self (keys first),
            e,
          )
        ],
      )
