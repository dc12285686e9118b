-- ===== src/Collect/SingleLaws.antt =====
-- scripts/collect_all_results.py: what the filter on the number of sanitizers leaves.
use desan.Prelude.{
  ◌≡◌, refl, ◌∙◌, ap, Bool, true, false, ◌&&◌, not, Option, List, [], ◌∷◌, Dict, get, lookup,
  update, contains, length, length-append, Key, nat_eq, list_eq, option_eq, pair_eq, ◌==◌, leb,
  lookup-insert, NodupKeys, insert-NodupKeys, Bool-cases, inl, inr, arith, if◌then◌else◌,
}
use desan.Py.Text.{Str}
use desan.Py.Table.{Row}
use desan.Collect.{Project, project_key, sanitizer_of, is_sanitized, keep_rows}
use desan.Collect.Filters.{
  add_member, project_sanitizers, removed_single, filter_projects_with_single_sanitizer,
}
use desan.Collect.FilterLaws.{keep_rows-ext, picked, contains-picked}

-- The sanitizers that the rows of a project name, row by row, as far as they are known ones.
abbrev pub sanitizers_in : Project → List Row → List (Option Str)
sanitizers_in key [] = []
sanitizers_in key (row ∷ rows) =
    let rest = sanitizers_in key rows in
    if is_sanitized row && project_key row == key then sanitizer_of row ∷ rest else rest

abbrev pub all_equal : Option Str → List (Option Str) → Bool
all_equal s [] = true
all_equal s (t ∷ ts) = s == t && all_equal s ts

-- There is one, and all the others are equal to it.
abbrev pub names_one : List (Option Str) → Bool
names_one [] = false
names_one (s ∷ ss) = all_equal s ss

abbrev members : List (Option Str) → List (Option Str) → List (Option Str)
members found [] = found
members found (s ∷ ss) = members (add_member s found) ss

length-add_member :
    (s : Option Str) (found : List (Option Str))
    → leb 2 (length found) ≡ true
    → leb 2 (length (add_member s found)) ≡ true
unfolding add_member
length-add_member s found h = elim (Bool-cases (contains s found)) [
  | inl e ↦ rw e h
  | inr e ↦ rw (e, length-append found (s ∷ [])) (ground arith)
]

length-members_several :
    (found ss : List (Option Str))
    → leb 2 (length found) ≡ true
    → (length (members found ss) == 1) ≡ false
length-members_several found [] h = ground arith
length-members_several found (s ∷ ss) h =
    length-members_several (add_member s found) ss (length-add_member s found h)

length-members_one :
    (s : Option Str) (ss : List (Option Str)) → (length (members (s ∷ []) ss) == 1) ≡ all_equal s ss
unfolding add_member contains
length-members_one s [] = refl
length-members_one s (t ∷ ts) = elim (Bool-cases (s == t)) [
  | inl e ↦ rw e (length-members_one s ts)
  | inr e ↦ rw e (length-members_several (s ∷ t ∷ []) ts refl)
]

length-members : (ss : List (Option Str)) → (length (members [] ss) == 1) ≡ names_one ss
unfolding add_member contains
length-members [] = refl
length-members (s ∷ ss) = length-members_one s ss

abbrev note_row : Dict Project (List (Option Str)) → Row → Dict Project (List (Option Str))
note_row found row =
    if is_sanitized row
    then update (project_key row) [] (add_member (sanitizer_of row)) found
    else found

get-project_sanitizers :
    (key : Project) (found : Dict Project (List (Option Str))) (rows : List Row)
    → get key [] (project_sanitizers found rows)
      ≡ members (get key [] found) (sanitizers_in key rows)
unfolding project_sanitizers
get-project_sanitizers key found [] = refl
get-project_sanitizers key found (row ∷ rows) =
    get-project_sanitizers key (note_row found row) rows ∙ elim (Bool-cases (is_sanitized row)) [
      | inl e ↦ elim (Bool-cases (project_key row == key)) [
        | inl k ↦ rw (e, lookup-insert, k, (Key.same_iff pair_eq (project_key row) key).0 k)
        | inr k ↦ rw (e, lookup-insert, k)
      ]
      | inr e ↦ rw e
    ]

project_sanitizers-NodupKeys :
    (found : Dict Project (List (Option Str))) (rows : List Row)
    → NodupKeys found
    → NodupKeys (project_sanitizers found rows)
unfolding project_sanitizers
project_sanitizers-NodupKeys found [] u = u
project_sanitizers-NodupKeys found (row ∷ rows) u =
    project_sanitizers-NodupKeys (note_row found row) rows (elim (Bool-cases (is_sanitized row)) [
      | inl e ↦ rw e (
          insert-NodupKeys (project_key row)
            (add_member (sanitizer_of row) (get (project_key row) [] found)) found u)
      | inr e ↦ rw e u
    ])

removed_single-picked :
    (found : Dict Project (List (Option Str)))
    → removed_single found ≡ picked (λ ss. length ss == 1) [] refl found
unfolding removed_single
removed_single-picked [] = refl
removed_single-picked ((key, ss) ∷ found) = rw (removed_single-picked found)

first_sanitizers :
    (key : Project) (rows : List Row)
    → get key [] (project_sanitizers [] rows) ≡ members [] (sanitizers_in key rows)
unfolding lookup
first_sanitizers key rows = get-project_sanitizers key [] rows

-- The second filter keeps, in their order, the rows of the projects whose rows do not all name one
-- and the same known sanitizer. A project without a known sanitizer is kept.
pub filter_single-keep_rows :
    (rows : List Row)
    → (filter_projects_with_single_sanitizer rows).0
      ≡ keep_rows (λ row. not (names_one (sanitizers_in (project_key row) rows))) rows
unfolding filter_projects_with_single_sanitizer
filter_single-keep_rows rows = keep_rows-ext _ _ rows (λ row. ap not (
    ap (contains (project_key row)) (removed_single-picked (project_sanitizers [] rows))
    ∙ contains-picked (λ ss. length ss == 1) [] refl (project_key row) (project_sanitizers [] rows)
        (project_sanitizers-NodupKeys [] rows tt)
    ∙ ap (λ ss. length ss == 1) (first_sanitizers (project_key row) rows)
    ∙ length-members (sanitizers_in (project_key row) rows)))
