-- ===== src/CheckLog.antt =====
-- `parse_check_log` and `sum_prefix` of scripts/opensource_asanmm_summary.py, which
-- scripts/spec_asanmm_summary.py holds once more: the log that scripts/count_sanitizer_checks.py
-- prints, read back.
pub mod Lines
pub mod Printed
pub mod Pipeline
use desan.Prelude.{
  ◌&&◌, Option, none, some, List, [], ◌∷◌, Dict, get, insert, or_default, nat_eq, list_eq,
  if◌then◌else◌,
}
use desan.Prelude.Int.{ℤ, pos, ◌+ℤ◌, is_zero}
use desan.Py.Result.{Result, ok, ◌>>=◌, except_value_error}
use desan.Py.Text.{
  Str, codes, starts_with, starts_with_any, strip, after_first, last_word, index_or_raise, truthy,
}
use desan.Py.Number.{int}
use desan.Py.File.{FileSystem, open_lines}

-- The local variables of the loop.
pub record CheckState : Type 0 where
  pub total : ℤ
  pub counts : Dict Str ℤ
  pub current_type : Option Str

abbrev pub start : CheckState
start = record { total = pos 0; counts = []; current_type = none }

-- `counts[current_type] = counts.get(current_type, 0) + int(line.rsplit(" ", 1)[1])`
unfoldable pub add_count : Str → Str → Dict Str ℤ → Result (Dict Str ℤ)
add_count name line counts = do
  word ← last_word line
  n ← int word
  ok (insert name (get name (pos 0) counts +ℤ n) counts)

-- The three tests on a line that is stripped.
unfoldable pub check_step : CheckState → Str → Result CheckState
unfolding add_count
check_step st line =
    if starts_with line (codes "Total Checks:")
    then (do
      total ← except_value_error (pos 0) (last_word line >>= int)
      ok (record st { total = total }))
    else if starts_with line (codes "Check Type:")
    then (do
      name ← index_or_raise (after_first b':' line)
      ok (record st { current_type = some (strip name) }))
    else if starts_with line (codes "Count:") && truthy st.current_type
    then (do
      counts ←
          except_value_error st.counts (add_count (or_default [] st.current_type) line st.counts)
      ok (record st { counts = counts; current_type = none }))
    else ok st

-- `for line in f`
unfoldable pub check_loop : CheckState → List Str → Result CheckState
unfolding check_step
check_loop st [] = ok st
check_loop st (line ∷ lines) = check_step st (strip line) >>= λ st'. check_loop st' lines

-- `sum(counts.values())`
unfoldable pub sum_values : Dict Str ℤ → ℤ
sum_values [] = pos 0
sum_values ((name, count) ∷ counts) = count +ℤ sum_values counts

-- A log with no total, or with a total of 0, has the sum of its counts.
unfoldable pub check_result : CheckState → ℤ × Dict Str ℤ
unfolding sum_values is_zero
check_result st = (if is_zero st.total then sum_values st.counts else st.total, st.counts)

unfoldable pub parse_check_lines : List Str → Result (ℤ × Dict Str ℤ)
unfolding check_loop check_result
parse_check_lines lines = check_loop start lines >>= λ st. ok (check_result st)

unfoldable pub parse_check_log : FileSystem → Option Str → Result (ℤ × Dict Str ℤ)
unfolding parse_check_lines open_lines
parse_check_log fs path = do
  log ← open_lines fs path
  elim log [ none ↦ ok (pos 0, []) | some lines ↦ parse_check_lines lines ]

unfoldable pub sum_prefix : Dict Str ℤ → List Str → ℤ
sum_prefix [] prefixes = pos 0
sum_prefix ((name, count) ∷ counts) prefixes =
    (if starts_with_any name prefixes then count else pos 0) +ℤ sum_prefix counts prefixes
