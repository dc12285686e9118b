-- ===== src/CheckLog/Pipeline.antt =====
-- The two programs in a row: scripts/count_sanitizer_checks.py on a module's text, and the
-- `parse_check_log` of the ASAN-- summaries on what it prints.
use desan.Prelude.{◌≡◌, ◌∙◌, ap, List, [], arith}
use desan.Prelude.Int.{pos}
use desan.Py.Result.{ok}
use desan.Py.Text.{Str}
use desan.Py.Float.{FloatOps, IsIeee}
use desan.CheckLog.{parse_check_lines}
use desan.CheckLog.Lines.{to_int}
use desan.CheckLog.Printed.{parse-print_summary}
use desan.CountChecks.{
  main, count_lines, sort_items, total_checks, sanitizer_prefix, normalize_kind,
}
use desan.CountChecks.Counting.{lines_where, calls_prefix, total_checks-count_lines}
use desan.CountChecks.Names.{count_lines-AllNames, count_lines-NodupKeys}

-- With IEEE floats the counting program prints a log for any text of a module, and `parse_check_log`
-- reads from it, as the total, the number of the lines whose first call has the sanitizer's prefix,
-- and the counts in printed order.
pub parse-main :
    (F : FloatOps) (sanitizer path : Str) (text : List Str)
    → IsIeee F
    → let prefix = sanitizer_prefix (normalize_kind sanitizer) in
      (lines : List Str) × (main F sanitizer path text ≡ ok lines)
      × (parse_check_lines lines
          ≡ ok (
            pos (lines_where (calls_prefix prefix) text),
            to_int (sort_items (count_lines prefix [] text)),
          ))
unfolding main total_checks
parse-main F sanitizer path text ieee =
    let prefix : Str = sanitizer_prefix (normalize_kind sanitizer) in
    let (lines, printed, read, _) =
      parse-print_summary F sanitizer path [] (count_lines prefix [] text) ieee
        (count_lines-AllNames prefix [] text tt) (count_lines-NodupKeys prefix [] text tt) in
    (
      lines,
      printed,
      read
          ∙ ap (λ n. ok (pos n, to_int (sort_items (count_lines prefix [] text))))
              (total_checks-count_lines prefix [] text ∙ omega arith),
    )
