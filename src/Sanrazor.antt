-- ===== src/Sanrazor.antt =====
-- scripts/spec_sanrazor_summary.py: the check files of SanRazor, the totals of each benchmark, and the
-- rows of the summary. The paths that `glob` gives come with their parts and with their lines.
pub mod Summary
use desan.Prelude.{
  ℕ, suc, Bool, true, false, ◌&&◌, not, Option, none, some, List, [], ◌∷◌, Dict, get, insert,
  contains, nat_eq, list_eq, if◌then◌else◌,
}
use desan.Prelude.Int.{ℤ, pos, ◌+ℤ◌}
use desan.Py.Result.{Result, ok, err}
use desan.Py.Text.{Str, split}
use desan.Py.Number.{int}
use desan.Runtime.Spec.{is_spec_name}

pub record CheckTotals : Type 0 where
  pub original : ℤ
  pub remaining : ℤ
  pub original_cost : ℤ
  pub remaining_cost : ℤ

abbrev pub zero_totals : CheckTotals
zero_totals = record {
  original = pos 0;
  remaining = pos 0;
  original_cost = pos 0;
  remaining_cost = pos 0;
}

-- `row[key] += counts.get(key, 0)` for the four keys
abbrev pub add_totals : CheckTotals → CheckTotals → CheckTotals
add_totals a b = record {
  original = a.original +ℤ b.original;
  remaining = a.remaining +ℤ b.remaining;
  original_cost = a.original_cost +ℤ b.original_cost;
  remaining_cost = a.remaining_cost +ℤ b.remaining_cost;
}

-- The four numbers of a line, `none` where `int` raises a `ValueError`.
unfoldable pub totals_of_fields :
    (original remaining original_cost remaining_cost : Str) → Option CheckTotals
unfolding int
totals_of_fields a b c d = elim (int a) [
  | err e ↦ none
  | ok original ↦ elim (int b) [
    | err e ↦ none
    | ok remaining ↦ elim (int c) [
      | err e ↦ none
      | ok original_cost ↦ elim (int d) [
        | err e ↦ none
        | ok remaining_cost ↦ some (record {
          original = original;
          remaining = remaining;
          original_cost = original_cost;
          remaining_cost = remaining_cost;
        })
      ]
    ]
  ]
]

abbrev pub KeyedTotals : Type 0
KeyedTotals = List Str × CheckTotals

abbrev with_key : List Str → Option CheckTotals → Option KeyedTotals
with_key key none = none
with_key key (some t) = some (key, t)

-- A line's first nine fields and its numbers, if it has nine and the four are numbers.
unfoldable pub check_line : Str → Option KeyedTotals
unfolding split totals_of_fields
check_line line = elim (split line) [
  | p0 ∷ p1 ∷ p2 ∷ p3 ∷ p4 ∷ p5 ∷ p6 ∷ p7 ∷ p8 ∷ rest ↦
      with_key (p0 ∷ p1 ∷ p2 ∷ p3 ∷ p4 ∷ p5 ∷ p6 ∷ p7 ∷ p8 ∷ []) (totals_of_fields p1 p3 p7 p8)
  | _ ↦ none
]

-- `seen` and the sums
abbrev pub CheckState : Type 0
CheckState = List (List Str) × CheckTotals

abbrev add_seen : CheckState → KeyedTotals → CheckState
add_seen (seen, totals) (key, t) =
    if contains key seen then (seen, totals) else (key ∷ seen, add_totals totals t)

unfoldable pub check_file_step : CheckState → Str → CheckState
unfolding check_line
check_file_step st line = elim (check_line line) [ none ↦ st | some t ↦ add_seen st t ]

-- The lines, of which `even` says whether the next one has an even number.
unfoldable pub check_file_loop : Bool → CheckState → List Str → CheckState
unfolding check_file_step
check_file_loop even st [] = st
check_file_loop true st (line ∷ lines) = check_file_loop false (check_file_step st line) lines
check_file_loop false st (line ∷ lines) = check_file_loop true st lines

-- A file that is not there gives an empty dict, which the caller reads as zeros.
unfoldable pub parse_check_file : Option (List Str) → CheckTotals
unfolding check_file_loop
parse_check_file none = zero_totals
parse_check_file (some lines) = (check_file_loop true ([], zero_totals) lines).1

-- `benchmark_from_check_path`, of the parts of a path
unfoldable pub benchmark_from_check_path : List Str → Option Str
unfolding is_spec_name
benchmark_from_check_path [] = none
benchmark_from_check_path (part ∷ parts) =
    let rest = benchmark_from_check_path parts in if is_spec_name part then some part else rest

-- The paths of all the patterns, in their order, with the lines of each file.
unfoldable pub parse_checks :
    Dict Str CheckTotals → List (List Str × Option (List Str)) → Dict Str CheckTotals
unfolding benchmark_from_check_path parse_check_file
parse_checks checks [] = checks
parse_checks checks ((parts, file) ∷ paths) =
    parse_checks
      (elim (benchmark_from_check_path parts) [
        | none ↦ checks
        | some bench ↦
            insert bench (add_totals (get bench zero_totals checks) (parse_check_file file)) checks
      ])
      paths
