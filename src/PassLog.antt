-- ===== src/PassLog.antt =====
-- `parse_pass_log` of scripts/opensource_summary.py and of scripts/spec_asan_summary.py: the log of the
-- DESAN pass, read line by line. The two differ in one thing: the first lets a `ValueError` of
-- `int` pass, and the second reads 0. What a line's number is, is therefore an argument of the loop.
pub mod Agreement
use desan.Prelude.{
  Bool, true, false, ◌&&◌, ◌||◌, not, Option, none, some, List, [], ◌∷◌, or_default, nat_eq,
  list_eq, if◌then◌else◌,
}
use desan.Prelude.Int.{ℤ, pos, ◌+ℤ◌}
use desan.Py.Result.{Result, ok, ◌>>=◌, except_value_error}
use desan.Py.Text.{
  Str, codes, starts_with, starts_with_any, strip, after_first, last_word, index_or_raise, truthy,
}
use desan.Py.Number.{int}
use desan.Py.File.{FileSystem, open_lines}

-- The local variables of the loop.
pub record PassState : Type 0 where
  pub total : ℤ
  pub core : ℤ
  pub removed : ℤ
  pub current_type : Option Str
  pub saw_total : Bool

abbrev pub start : PassState
start = record {
  total = pos 0;
  core = pos 0;
  removed = pos 0;
  current_type = none;
  saw_total = false;
}

-- `int(line.rsplit(" ", 1)[1])`
unfoldable pub strict_number : Str → Result ℤ
strict_number line = last_word line >>= int

-- The same under `try … except ValueError: … = 0`.
unfoldable pub tolerant_number : Str → Result ℤ
unfolding strict_number
tolerant_number line = except_value_error (pos 0) (strict_number line)

-- `(total, core, removed)`
abbrev pub Totals : Type 0
Totals = ℤ × ℤ × ℤ

abbrev pub totals_of : PassState → Totals
totals_of st = (st.total, st.core, st.removed)

abbrev pub is_removed_line : Str → Bool
is_removed_line line =
    starts_with line (codes "DESAN Removed Redundant Checks:")
    || starts_with line (codes "DESAN Removed Redundant READ Checks:")

module _ (number : Str → Result ℤ) (core_prefixes : List Str) where
  -- `core += count` if the type is a core type
  abbrev pub add_core : PassState → ℤ → PassState
  add_core st count = record st {
    core =
        if starts_with_any (or_default [] st.current_type) core_prefixes
        then st.core +ℤ count
        else st.core;
    current_type = none;
  }

  -- The tests on a line that is stripped.
  unfoldable pub pass_step : PassState → Str → Result PassState
  pass_step st line =
      if starts_with line (codes "Total Checks:") && not st.saw_total
      then (number line >>= λ n. ok (record st { total = n; saw_total = true }))
      else if starts_with line (codes "Check Type:")
      then (index_or_raise (after_first b':' line) >>= λ name.
          ok (record st { current_type = some (strip name) }))
      else if starts_with line (codes "Count:") && truthy st.current_type
      then (number line >>= λ n. ok (add_core st n))
      else if is_removed_line line
      then (number line >>= λ n. ok (record st { removed = n }))
      else ok st

  -- `for line in f`
  unfoldable pub pass_loop : PassState → List Str → Result PassState
  unfolding pass_step
  pass_loop st [] = ok st
  pass_loop st (line ∷ lines) = pass_step st (strip line) >>= λ st'. pass_loop st' lines

  unfoldable pub parse_pass_lines : List Str → Result Totals
  unfolding pass_loop
  parse_pass_lines lines = pass_loop start lines >>= λ st. ok (totals_of st)

  unfoldable pub parse_log : FileSystem → Option Str → Result Totals
  unfolding parse_pass_lines open_lines
  parse_log fs path = do
    log ← open_lines fs path
    elim log [ none ↦ ok (pos 0, pos 0, pos 0) | some lines ↦ parse_pass_lines lines ]

-- `parse_pass_log` of scripts/opensource_summary.py
unfoldable pub strict_pass_log : List Str → FileSystem → Option Str → Result Totals
unfolding parse_log strict_number
strict_pass_log core_prefixes = parse_log strict_number core_prefixes

-- `parse_pass_log` of scripts/spec_asan_summary.py
unfoldable pub tolerant_pass_log : List Str → FileSystem → Option Str → Result Totals
unfolding parse_log tolerant_number
tolerant_pass_log core_prefixes = parse_log tolerant_number core_prefixes
