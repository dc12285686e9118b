-- ===== src/Tests/Records.antt =====
-- The readers of logs and records on a small table of records.
use desan.Prelude.{
  All, ◌≡◌, ◌≤◌, ◌⊎◌, ◌&&◌, ◌==◌, refl, Option, none, some, List, [], ◌∷◌, get, lookup, insert,
  list_beq, nat_eq, list_eq, if◌then◌else◌,
}
use desan.Prelude.Int.{pos, ◌+ℤ◌}
use desan.Py.Result.{ok, err, value_error}
use desan.Py.Text.{Str, codes, strip, starts_with, starts_with_any, after_first, last_word}
use desan.Py.Number.{int}
use desan.Py.Table.{row_get, Table, dict_reader}
use desan.Py.File.{FileSystem, absent, lines}
use desan.PassLog.{strict_pass_log, tolerant_pass_log}
use desan.PassLog.Agreement.{tolerant_pass_log-strict_pass_log}
use desan.Records.{read_tables}
use desan.Records.Asan.{
  Counts, zero_counts, is_record, benchmark_of, parse_suite_records, parse_project_records,
}
use mathlib.Core.List.{flatten}
use desan.Records.Bounds.{count_where, parse_suite_records-units}
use desan.Records.Projects.{IsNamed, parse_suite_records-project}

abbrev log_lines : List Str
log_lines =
    codes "Total Checks: 7\n"
    ∷ codes "Check Type: __asan_load4\n"
    ∷ codes "Count: 3\n"
    ∷ codes "DESAN Removed Redundant READ Checks: 2\n"
    ∷ []

abbrev files : FileSystem
files path = if path == codes "log" then lines log_lines else absent

abbrev prefixes : List Str
prefixes = codes "__asan_load" ∷ []

abbrev records : Table
records =
    (codes "benchmark" ∷ codes "status" ∷ codes "pass_log" ∷ [])
    ∷ (codes "zlib" ∷ codes "pass" ∷ codes "log" ∷ [])
    ∷ (codes "zlib" ∷ codes "direct" ∷ [] ∷ [])
    ∷ []

abbrev csv : Str → Option Table
csv path = if path == codes "records.tsv" then some records else none

abbrev pub zlib_counts : Counts
zlib_counts = record {
  compile_units = 2;
  fallback_units = 1;
  total_checks = pos 7;
  core_checks = pos 3;
  removed_checks = pos 2;
}

suite_test :
    parse_suite_records files csv (codes "records.tsv" ∷ []) prefixes
    ≡ ok ((codes "zlib", zlib_counts) ∷ [])
unfolding parse_suite_records insert lookup list_beq strip int ◌+ℤ◌ last_word after_first
    starts_with starts_with_any row_get
suite_test = refl

project_test :
    parse_project_records files csv (codes "records.tsv") (codes "zlib") prefixes ≡ ok zlib_counts
unfolding parse_project_records insert lookup list_beq strip int ◌+ℤ◌ last_word after_first
    starts_with starts_with_any row_get
project_test = refl

parse_suite_records-units_example :
    ((get (codes "zlib") zero_counts ((codes "zlib", zlib_counts) ∷ [])).compile_units
      ≡ count_where
          (λ rec. is_record rec && benchmark_of rec == codes "zlib")
          (flatten (read_tables csv (codes "records.tsv" ∷ []))))
    × ((get (codes "zlib") zero_counts ((codes "zlib", zlib_counts) ∷ [])).fallback_units
        ≤ (get (codes "zlib") zero_counts ((codes "zlib", zlib_counts) ∷ [])).compile_units)
parse_suite_records-units_example =
    parse_suite_records-units files csv (codes "records.tsv" ∷ []) prefixes
      ((codes "zlib", zlib_counts) ∷ []) (codes "zlib") suite_test

records_found : csv (codes "records.tsv") ≡ some records
unfolding list_beq
records_found = refl

records-IsNamed : All IsNamed (dict_reader records)
unfolding dict_reader insert lookup list_beq is_record benchmark_of row_get
records-IsNamed = (
  record { name = codes "zlib"; named = refl; filled = λ h. cc; known = λ h. cc; is_rec = refl },
  (
    record { name = codes "zlib"; named = refl; filled = λ h. cc; known = λ h. cc; is_rec = refl },
    tt,
  ),
)

parse_suite_records-project_example :
    get (codes "zlib") zero_counts ((codes "zlib", zlib_counts) ∷ []) ≡ zlib_counts
parse_suite_records-project_example =
    parse_suite_records-project files csv (codes "records.tsv") prefixes records (codes "zlib")
      zlib_counts ((codes "zlib", zlib_counts) ∷ []) records_found records-IsNamed project_test
      suite_test

tolerant_pass_log-strict_pass_log_example :
    (tolerant_pass_log prefixes files (some (codes "log"))
      ≡ strict_pass_log prefixes files (some (codes "log")))
    ⊎ (strict_pass_log prefixes files (some (codes "log")) ≡ err value_error)
tolerant_pass_log-strict_pass_log_example =
    tolerant_pass_log-strict_pass_log prefixes files (some (codes "log"))
