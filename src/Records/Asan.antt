-- ===== src/Records/Asan.antt =====
-- `parse_records` of scripts/opensource_summary.py and scripts/spec_asan_summary.py.
use desan.Prelude.{
  ℕ, ◌+◌, Bool, ◌||◌, not, Option, none, some, List, [], Dict, nat_eq, list_eq, if◌then◌else◌,
}
use desan.Prelude.Int.{ℤ, pos, ◌+ℤ◌}
use desan.Py.Result.{Result, ok, ◌>>=◌}
use desan.Py.Text.{Str, codes}
use desan.Py.Table.{Table, Row, dict_reader, row_get}
use desan.Py.File.{FileSystem}
use desan.PassLog.{Totals, strict_pass_log, tolerant_pass_log}
use desan.Records.{is_text, or_text?, field, read_tables, sum_records, group_tables}

pub record Counts : Type 0 where
  pub compile_units : ℕ
  pub fallback_units : ℕ
  pub total_checks : ℤ
  pub core_checks : ℤ
  pub removed_checks : ℤ

abbrev pub zero_counts : Counts
zero_counts = record {
  compile_units = 0;
  fallback_units = 0;
  total_checks = pos 0;
  core_checks = pos 0;
  removed_checks = pos 0;
}

-- `rec.get("pass_log", "")`
abbrev pub pass_log_of : Row → Option Str
pass_log_of rec = row_get (codes "pass_log") (some []) rec

abbrev pub add_pass : Counts → Totals → Counts
add_pass row (total, core, removed) = record row {
  compile_units = row.compile_units + 1;
  total_checks = row.total_checks +ℤ total;
  core_checks = row.core_checks +ℤ core;
  removed_checks = row.removed_checks +ℤ removed;
}

abbrev pub add_pass_fallback : Counts → Totals → Counts
add_pass_fallback row (total, core, removed) = record row {
  compile_units = row.compile_units + 1;
  fallback_units = row.fallback_units + 1;
  total_checks = row.total_checks +ℤ total;
  core_checks = row.core_checks +ℤ core;
}

abbrev pub add_fallback : Counts → Counts
add_fallback row = record row {
  compile_units = row.compile_units + 1;
  fallback_units = row.fallback_units + 1;
}

-- The body of the loop, from `row["compile_units"] += 1` on, over a parser of pass logs.
unfoldable pub add_record : (Option Str → Result Totals) → Row → Counts → Result Counts
add_record parse rec row =
    if is_text (field (codes "status") rec) (codes "pass")
    then (parse (pass_log_of rec) >>= λ t. ok (add_pass row t))
    else if is_text (field (codes "status") rec) (codes "pass-fallback")
    then (parse (pass_log_of rec) >>= λ t. ok (add_pass_fallback row t))
    else ok (add_fallback row)

-- `rec.get("benchmark") in (benchmark, "<unknown>")`
unfoldable pub is_benchmark : Str → Row → Bool
is_benchmark benchmark rec =
    is_text (field (codes "benchmark") rec) benchmark
    || is_text (field (codes "benchmark") rec) (codes "<unknown>")

-- A row that repeats the header is passed over.
unfoldable pub is_record : Row → Bool
is_record rec = not (
    is_text (field (codes "status") rec) (codes "status")
    || is_text (field (codes "benchmark") rec) (codes "benchmark"))

-- `rec.get("benchmark", "<unknown>") or "<unknown>"`
unfoldable pub benchmark_of : Row → Str
benchmark_of rec =
    or_text? (row_get (codes "benchmark") (some (codes "<unknown>")) rec) (codes "<unknown>")

-- `parse_records` of scripts/opensource_summary.py
unfoldable pub parse_project_records :
    FileSystem → (Str → Option Table) → Str → Str → List Str → Result Counts
unfolding sum_records add_record is_benchmark dict_reader strict_pass_log
parse_project_records fs csv path benchmark core_prefixes = elim (csv path) [
  | none ↦ ok zero_counts
  | some table ↦
      sum_records (is_benchmark benchmark) (add_record (strict_pass_log core_prefixes fs))
        zero_counts (dict_reader table)
]

-- `parse_records` of scripts/spec_asan_summary.py
unfoldable pub parse_suite_records :
    FileSystem → (Str → Option Table) → List Str → List Str → Result (Dict Str Counts)
unfolding group_tables add_record is_record benchmark_of read_tables tolerant_pass_log
parse_suite_records fs csv paths core_prefixes =
    group_tables is_record (add_record (tolerant_pass_log core_prefixes fs)) benchmark_of
      zero_counts [] (read_tables csv paths)
