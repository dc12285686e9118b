-- ===== src/Tests/CheckLog.antt =====
-- The counting program and the parser of its log on a small module.
use desan.Prelude.{
  ◌+◌, insert, ℕ, ◌≡◌, refl, List, [], ◌∷◌, Dict, lookup, get, list_beq, nat_eq, list_eq,
}
use desan.Prelude.Int.{pos}
use desan.Py.Result.{ok}
use desan.Py.Text.{Str, codes, starts_with}
use desan.CheckLog.{parse_check_lines, sum_prefix}
use desan.CheckLog.Lines.{to_int}
use desan.CheckLog.Printed.{parse-print_summary}
use desan.CheckLog.Pipeline.{parse-main}
use desan.CountChecks.{
  main, print_summary, count_lines, sort_items, total_checks, core_checks, sanitizer_prefix,
  normalize_kind,
}
use desan.CountChecks.Counting.{lines_where, calls, calls_prefix, get-count_lines}
use desan.CountChecks.Names.{count_lines-AllNames, count_lines-NodupKeys}
use desan.Tests.Floats.{whole, whole-IsIeee}

abbrev module_text : List Str
module_text =
    codes "  call void @__asan_report_load4(i64 %5)\n"
    ∷ codes "  %1 = add i32 %0, 1\n"
    ∷ codes "  call void @__asan_init()\n"
    ∷ codes "  call void @__asan_report_load4(i64 %6)\n"
    ∷ codes "  call void @puts(i8* %2)\n"
    ∷ []

counts : Dict Str ℕ
unfolding count_lines insert lookup list_beq starts_with
counts = count_lines (codes "__asan_") [] module_text

counts_test : sort_items counts ≡ (codes "__asan_report_load4", 2) ∷ (codes "__asan_init", 1) ∷ []
unfolding counts sort_items
counts_test = refl

parse-print_summary_example :
    (lines : List Str) × (print_summary whole (codes "address") (codes "a.ll") counts ≡ ok lines)
    × (parse_check_lines lines ≡ ok (pos (total_checks counts), to_int (sort_items counts)))
    × (sum_prefix (to_int (sort_items counts)) (codes "__asan_report_load" ∷ [])
        ≡ pos (core_checks (codes "__asan_report_load" ∷ []) counts))
unfolding counts
parse-print_summary_example =
    parse-print_summary whole (codes "address") (codes "a.ll") (codes "__asan_report_load" ∷ [])
      counts whole-IsIeee (count_lines-AllNames (codes "__asan_") [] module_text tt)
      (count_lines-NodupKeys (codes "__asan_") [] module_text tt)

parse-main_example :
    let prefix = sanitizer_prefix (normalize_kind (codes "asan")) in
    (lines : List Str) × (main whole (codes "asan") (codes "a.ll") module_text ≡ ok lines)
    × (parse_check_lines lines
        ≡ ok (
          pos (lines_where (calls_prefix prefix) module_text),
          to_int (sort_items (count_lines prefix [] module_text)),
        ))
parse-main_example = parse-main whole (codes "asan") (codes "a.ll") module_text whole-IsIeee

get-count_lines_example :
    get (codes "__asan_report_load4") 0 (count_lines (codes "__asan_") [] module_text)
    ≡ get (codes "__asan_report_load4") 0 []
      + lines_where (calls (codes "__asan_report_load4")) module_text
unfolding starts_with
get-count_lines_example =
    get-count_lines (codes "__asan_") (codes "__asan_report_load4") [] module_text refl
