-- ===== src/Records/Asanmm.antt =====
-- `parse_records` of scripts/opensource_asanmm_summary.py and scripts/spec_asanmm_summary.py.
use mathlib.Core.Option
use desan.Prelude.{
  ℕ, ◌+◌, Bool, false, ◌||◌, not, Option, none, some, List, [], ◌∷◌, Dict, ◌==◌, nat_eq, list_eq,
  if◌then◌else◌,
}
use desan.Prelude.Int.{ℤ, pos, ◌+ℤ◌}
use desan.Py.Result.{Result, ok, ◌>>=◌}
use desan.Py.Text.{Str, codes, strip, rstrip}
use desan.Py.Table.{Table, Row, dict_reader, row_get}
use desan.Py.File.{FileSystem}
use desan.CheckLog.{parse_check_log, sum_prefix}
use desan.Records.{is_text, or_text?, field, read_tables, sum_records, group_tables}
use desan.Records.Asan.{pass_log_of}

abbrev pub core_prefixes : List Str
core_prefixes =
    codes "__asan_report_load"
    ∷ codes "__asan_report_store"
    ∷ codes "__asan_load"
    ∷ codes "__asan_store"
    ∷ []

abbrev pub read_prefixes : List Str
read_prefixes = codes "__asan_report_load" ∷ codes "__asan_load" ∷ []

abbrev pub write_prefixes : List Str
write_prefixes = codes "__asan_report_store" ∷ codes "__asan_store" ∷ []

-- The text before a suffix, if it ends in it.
unfoldable pub drop_suffix : Str → Str → Option Str
drop_suffix suffix [] = if [] == suffix then some [] else none
drop_suffix suffix (c ∷ s) =
    if (c ∷ s) == suffix then some [] else Option.map (λ t. c ∷ t) (drop_suffix suffix s)

-- `re.sub(r"\s*\((base|peak)\)\s*$", "", (name or "").strip())`
unfoldable pub normalize_benchmark_name : Str → Str
unfolding strip rstrip drop_suffix
normalize_benchmark_name name =
    let s = strip name in
    elim (drop_suffix (codes "(base)") s) [
      | some t ↦ rstrip t
      | none ↦ elim (drop_suffix (codes "(peak)") s) [ some t ↦ rstrip t | none ↦ s ]
    ]

pub record AccessCounts : Type 0 where
  pub compile_units : ℕ
  pub fallback_units : ℕ
  pub total_checks : ℤ
  pub core_checks : ℤ
  pub read_checks : ℤ
  pub write_checks : ℤ

abbrev pub zero_counts : AccessCounts
zero_counts = record {
  compile_units = 0;
  fallback_units = 0;
  total_checks = pos 0;
  core_checks = pos 0;
  read_checks = pos 0;
  write_checks = pos 0;
}

-- `not counts and rec.get("status") != "direct-ir"`
abbrev pub is_fallback : Dict Str ℤ → Row → Bool
is_fallback [] rec = not (is_text (field (codes "status") rec) (codes "direct-ir"))
is_fallback (c ∷ counts) rec = false

abbrev pub add_checks : Row → AccessCounts → ℤ × Dict Str ℤ → AccessCounts
add_checks rec row (total, counts) = record {
  compile_units = row.compile_units + 1;
  fallback_units = row.fallback_units + (if is_fallback counts rec then 1 else 0);
  total_checks = row.total_checks +ℤ total;
  core_checks = row.core_checks +ℤ sum_prefix counts core_prefixes;
  read_checks = row.read_checks +ℤ sum_prefix counts read_prefixes;
  write_checks = row.write_checks +ℤ sum_prefix counts write_prefixes;
}

-- The body of the loop, from `row["compile_units"] += 1` on.
unfoldable pub add_record : FileSystem → Row → AccessCounts → Result AccessCounts
unfolding parse_check_log sum_prefix
add_record fs rec row = parse_check_log fs (pass_log_of rec) >>= λ t. ok (add_checks rec row t)

-- `rec.get("benchmark", "") in (benchmark, "<unknown>")`
unfoldable pub is_benchmark : Str → Row → Bool
is_benchmark benchmark rec =
    let rec_bench = row_get (codes "benchmark") (some []) rec in
    is_text rec_bench benchmark || is_text rec_bench (codes "<unknown>")

-- `normalize_benchmark_name(rec.get("benchmark", "<unknown>") or "<unknown>")`
unfoldable pub benchmark_of : Row → Str
unfolding normalize_benchmark_name
benchmark_of rec =
    normalize_benchmark_name
      (or_text? (row_get (codes "benchmark") (some (codes "<unknown>")) rec) (codes "<unknown>"))

-- A row that repeats the header is passed over.
unfoldable pub is_record : Row → Bool
unfolding benchmark_of
is_record rec =
    not (
      benchmark_of rec == codes "benchmark"
      || is_text (field (codes "status") rec) (codes "status"))

-- `parse_records` of scripts/opensource_asanmm_summary.py
unfoldable pub parse_project_records :
    FileSystem → (Str → Option Table) → Str → Str → Result AccessCounts
unfolding sum_records add_record is_benchmark dict_reader
parse_project_records fs csv path benchmark = elim (csv path) [
  | none ↦ ok zero_counts
  | some table ↦
      sum_records (is_benchmark benchmark) (add_record fs) zero_counts (dict_reader table)
]

-- `parse_records` of scripts/spec_asanmm_summary.py
unfoldable pub parse_suite_records :
    FileSystem → (Str → Option Table) → List Str → Result (Dict Str AccessCounts)
unfolding group_tables add_record is_record benchmark_of read_tables
parse_suite_records fs csv paths =
    group_tables is_record (add_record fs) benchmark_of zero_counts [] (read_tables csv paths)
