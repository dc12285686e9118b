-- ===== src/Records/Projects.antt =====
-- The two DESAN summaries on the same records: one project's sum, and the suite's row of it.
use mathlib.Core.List.{append-nil, flatten}
use desan.Prelude.{
  ◌≡◌, ◌≢◌, refl, ◌∙◌, sym, true, ◌&&◌, Option, some, List, [], ◌∷◌, Dict, get, lookup, Key, nat_eq,
  list_eq, ◌==◌, arith, Bool-cases, inl, inr, All,
}
use desan.Py.Result.{Result, ok, bind-eq-ok, ok-injective}
use desan.Py.Text.{Str, codes}
use desan.Py.Table.{Table, Row, dict_reader, row_get}
use desan.Py.File.{FileSystem}
use desan.PassLog.{Totals, strict_pass_log, tolerant_pass_log}
use desan.PassLog.Agreement.{tolerant_pass_log-strict_pass_log}
use desan.Records.{sum_record, sum_records, read_tables, is_text, or_text?, field}
use desan.Records.Asan.{
  Counts, zero_counts, add_pass, add_pass_fallback, pass_log_of, add_record, is_record,
  is_benchmark, benchmark_of, parse_suite_records, parse_project_records,
}
use desan.Records.Grouping.{of_benchmark, group_tables-benchmark}

-- A record that names its benchmark, and not by one of the two words with another meaning.
pub record IsNamed (rec : Row) : Type 0 where
  pub name : Str
  pub named : lookup (codes "benchmark") rec ≡ some (some name)
  pub filled : name ≢ []
  pub known : name ≢ codes "<unknown>"
  pub is_rec : is_record rec ≡ true

or_text?_filled : (name t : Str) → name ≢ [] → or_text? (some name) t ≡ name
or_text?_filled [] t h = absurd (h refl)
or_text?_filled (c ∷ s) t h = refl

named_test :
    (b : Str) (rec : Row)
    → IsNamed rec
    → (is_record rec && benchmark_of rec == b) ≡ is_benchmark b rec
unfolding benchmark_of is_benchmark row_get
named_test b rec h =
    rw (h.is_rec, h.named, or_text?_filled h.name (codes "<unknown>") h.filled)
      (ground (arith, Key.same_iff list_eq h.name (codes "<unknown>")))

module _ (strict tolerant : Option Str → Result Totals) where
  -- Where the strict parser returns, the tolerant one returns the same.
  abbrev Extends : Type 0
  Extends = (path : Option Str) (t : Totals) → strict path ≡ ok t → tolerant path ≡ ok t

  add_record-extends :
      (rec : Row) (row row' : Counts)
      → Extends
      → add_record strict rec row ≡ ok row'
      → add_record tolerant rec row ≡ ok row'
  unfolding add_record
  add_record-extends rec row row' ext h =
      elim (Bool-cases (is_text (field (codes "status") rec) (codes "pass"))) [
        | inl e ↦
            let (t, p, q) =
              bind-eq-ok (strict (pass_log_of rec)) (λ t. ok (add_pass row t)) row' (rw e at h) in
            rw (e, ext (pass_log_of rec) t p) q
        | inr e ↦ elim (Bool-cases (is_text (field (codes "status") rec) (codes "pass-fallback"))) [
          | inl f ↦
              let (t, p, q) =
                bind-eq-ok (strict (pass_log_of rec)) (λ t. ok (add_pass_fallback row t)) row'
                  (rw (e, f) at h) in
              rw (e, f, ext (pass_log_of rec) t p) q
          | inr f ↦ rw (e, f) (rw (e, f) at h)
        ]
      ]

  sum_records-extends :
      (b : Str) (row row' : Counts) (recs : List Row)
      → Extends
      → All IsNamed recs
      → sum_records (is_benchmark b) (add_record strict) row recs ≡ ok row'
      → sum_records
          (of_benchmark is_record (add_record tolerant) benchmark_of zero_counts b)
          (add_record tolerant)
          row
          recs
        ≡ ok row'
  unfolding sum_records
  sum_records-extends b row row' [] ext named h = h
  sum_records-extends b row row' (rec ∷ recs) ext (n, named) h =
      let (mid, p, q) =
        bind-eq-ok (sum_record (is_benchmark b) (add_record strict) row rec)
          (λ r. sum_records (is_benchmark b) (add_record strict) r recs) row' h in
      let rest = sum_records-extends b mid row' recs ext named q in
      elim (Bool-cases (is_benchmark b rec)) [
        | inl e ↦
            rw
              (
                sum_record,
                named_test b rec n,
                e,
                add_record-extends rec row mid ext (rw (e, sum_record) at p),
              )
              rest
        | inr e ↦
            rw (sum_record, named_test b rec n, e, ok-injective row mid (rw (e, sum_record) at p))
              rest
      ]

project_table :
    (fs : FileSystem) (csv : Str → Option Table) (path : Str) (core_prefixes : List Str)
    (table : Table) (b : Str)
    → csv path ≡ some table
    → parse_project_records fs csv path b core_prefixes
      ≡ sum_records
          (is_benchmark b)
          (add_record (strict_pass_log core_prefixes fs))
          zero_counts
          (dict_reader table)
unfolding parse_project_records
project_table fs csv path core_prefixes table b found = rw (found, parse_project_records)

read_tables_one :
    (csv : Str → Option Table) (path : Str) (table : Table)
    → csv path ≡ some table
    → flatten (read_tables csv (path ∷ [])) ≡ dict_reader table
unfolding read_tables flatten
read_tables_one csv path table found = rw (found, read_tables) (append-nil (dict_reader table))

-- On one table of records that all name their benchmark, if both scripts return, the sums of the
-- project's script are the row of the suite's script for the benchmark.
pub parse_suite_records-project :
    (fs : FileSystem) (csv : Str → Option Table) (path : Str) (core_prefixes : List Str)
    (table : Table) (b : Str) (counts : Counts) (rows : Dict Str Counts)
    → csv path ≡ some table
    → All IsNamed (dict_reader table)
    → parse_project_records fs csv path b core_prefixes ≡ ok counts
    → parse_suite_records fs csv (path ∷ []) core_prefixes ≡ ok rows
    → get b zero_counts rows ≡ counts
unfolding parse_suite_records lookup
parse_suite_records-project fs csv path core_prefixes table b counts rows found named h k =
    let strict : Option Str → Result Totals = strict_pass_log core_prefixes fs in
    let tolerant : Option Str → Result Totals = tolerant_pass_log core_prefixes fs in
    let ext : Extends strict tolerant = λ log t e.
      elim (tolerant_pass_log-strict_pass_log core_prefixes fs log) [
        | inl same ↦ same ∙ e
        | inr raised ↦ cc (raised, e)
      ] in
    let project =
      sum_records-extends strict tolerant b zero_counts counts (dict_reader table) ext named
        (sym (project_table fs csv path core_prefixes table b found) ∙ h) in
    let suite =
      group_tables-benchmark is_record (add_record tolerant) benchmark_of zero_counts [] rows
        (read_tables csv (path ∷ [])) b k in
    ok-injective (get b zero_counts rows) counts
      (sym (rw (read_tables_one csv path table found) at suite) ∙ project)
