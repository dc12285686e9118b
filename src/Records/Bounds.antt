-- ===== src/Records/Bounds.antt =====
-- Bounds of the sums over the compile records: every record of a benchmark is a compile unit, and no
-- more units are fallbacks than there are units.
use mathlib.Core.List.{flatten}
use mathlib.Core.Path.{subst}
use desan.Prelude.{
  ℕ, ◌+◌, ◌≤◌, ◌≡◌, refl, Bool, ◌&&◌, Option, List, [], ◌∷◌, Dict, get, lookup, nat_eq, list_eq,
  ◌==◌, arith, if◌then◌else◌, Bool-cases, inl, inr,
}
use desan.Py.Result.{Result, ok, bind-eq-ok, ok-injective}
use desan.Py.Text.{Str, codes}
use desan.Py.Table.{Table, Row}
use desan.Py.File.{FileSystem}
use desan.PassLog.{Totals, tolerant_pass_log}
use desan.Records.{sum_record, sum_records, read_tables, is_text, field}
use desan.Records.Asan.{
  Counts, zero_counts, add_pass, add_pass_fallback, add_fallback, pass_log_of, add_record,
  is_record, benchmark_of, parse_suite_records,
}
use desan.Records.Grouping.{group_tables-benchmark}

-- The number of the rows that pass a test.
abbrev pub count_where : (Row → Bool) → List Row → ℕ
count_where test [] = 0
count_where test (rec ∷ recs) = (if test rec then 1 else 0) + count_where test recs

-- What a step may do to the units: `k` more units, and at most as many more fallbacks.
pub record Grows (k : ℕ) (row row' : Counts) : Type 0 where
  pub units : row'.compile_units ≡ row.compile_units + k
  pub fallbacks : row'.fallback_units ≤ row.fallback_units + k

module _ (parse : Option Str → Result Totals) where
  add_record-Grows :
      (rec : Row) (row row' : Counts) → add_record parse rec row ≡ ok row' → Grows 1 row row'
  unfolding add_record
  add_record-Grows rec row row' h =
      elim (Bool-cases (is_text (field (codes "status") rec) (codes "pass"))) [
        | inl e ↦
            let (t, p, q) =
              bind-eq-ok (parse (pass_log_of rec)) (λ t. ok (add_pass row t)) row' (rw e at h) in
            grown (add_pass row t) row' (record { units = refl; fallbacks = omega arith }) q
        | inr e ↦ elim (Bool-cases (is_text (field (codes "status") rec) (codes "pass-fallback"))) [
          | inl f ↦
              let (t, p, q) =
                bind-eq-ok (parse (pass_log_of rec)) (λ t. ok (add_pass_fallback row t)) row'
                  (rw (e, f) at h) in
              grown (add_pass_fallback row t) row'
                (record { units = refl; fallbacks = omega arith }) q
          | inr f ↦
              grown (add_fallback row) row' (record { units = refl; fallbacks = omega arith })
                (rw (e, f) at h)
        ]
      ]
    where
      grown : (a b : Counts) → Grows 1 row a → ok a ≡ ok b → Grows 1 row b
      grown a b g e = subst (Grows 1 row) (ok-injective a b e) g

  sum_records-Grows :
      (test : Row → Bool) (row row' : Counts) (recs : List Row)
      → sum_records test (add_record parse) row recs ≡ ok row'
      → Grows (count_where test recs) row row'
  unfolding sum_records
  sum_records-Grows test row row' [] h =
      subst (Grows 0 row) (ok-injective row row' h)
        (record { units = omega arith; fallbacks = omega arith })
  sum_records-Grows test row row' (rec ∷ recs) h =
      let (mid, p, q) =
        bind-eq-ok (sum_record test (add_record parse) row rec)
          (λ r. sum_records test (add_record parse) r recs) row' h in
      let rest = sum_records-Grows test mid row' recs q in
      elim (Bool-cases (test rec)) [
        | inl e ↦
            let first = add_record-Grows rec row mid (rw (e, sum_record) at p) in
            rw e (record { units = omega arith; fallbacks = omega arith })
        | inr e ↦
            let same = ok-injective row mid (rw (e, sum_record) at p) in
            rw (e, same) (record { units = omega arith; fallbacks = omega arith })
      ]

-- If the records of a suite are summed up, then a benchmark has as many compile units as there are
-- records of it in all the tables, and no more fallbacks than units.
pub parse_suite_records-units :
    (fs : FileSystem) (csv : Str → Option Table) (paths core_prefixes : List Str)
    (rows : Dict Str Counts) (b : Str)
    → parse_suite_records fs csv paths core_prefixes ≡ ok rows
    → ((get b zero_counts rows).compile_units
        ≡ count_where
            (λ rec. is_record rec && benchmark_of rec == b)
            (flatten (read_tables csv paths)))
      × ((get b zero_counts rows).fallback_units ≤ (get b zero_counts rows).compile_units)
unfolding parse_suite_records lookup
parse_suite_records-units fs csv paths core_prefixes rows b h =
    let g =
      sum_records-Grows (tolerant_pass_log core_prefixes fs) _ _ _ (flatten (read_tables csv paths))
        (group_tables-benchmark is_record (add_record (tolerant_pass_log core_prefixes fs))
          benchmark_of zero_counts [] rows (read_tables csv paths) b h) in
    (omega (arith, g.units), omega (arith, g.units, g.fallbacks))
