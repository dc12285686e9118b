-- ===== src/Records/Grouping.antt =====
-- The sums by benchmark are, for each benchmark, the sum over its own records in their order.
use mathlib.Core.List.{flatten}
use desan.Prelude.{
  ◌≡◌, refl, ap, Bool, ◌&&◌, List, [], ◌∷◌, ◌++◌, Dict, get, insert, lookup-insert, Key, ◌==◌,
  nat_eq, list_eq, inl, inr, Bool-cases, arith,
}
use desan.Py.Result.{ok-injective, Result, ok, ◌>>=◌, Result-cases, bind-eq-ok}
use desan.Py.Text.{Str}
use desan.Py.Table.{Row}
use desan.Records.{sum_record, sum_records, group_record, group_records, group_tables}

module _ {T : Type 0} (keep : Row → Bool) (add : Row → T → Result T) where
  pub sum_records-append :
      (row : T) (recs more : List Row)
      → sum_records keep add row (recs ++ more)
        ≡ (sum_records keep add row recs >>= λ row'. sum_records keep add row' more)
  unfolding sum_records
  sum_records-append row [] more = refl
  sum_records-append row (rec ∷ recs) more = elim (Result-cases (sum_record keep add row rec)) [
    | inl (a, p) ↦ rw (p, sum_record) (sum_records-append a recs more)
    | inr (x, p) ↦ rw (p, sum_record)
  ]

module _ {T : Type 0} (keep : Row → Bool) (add : Row → T → Result T) (bench_of : Row → Str)
    (zero : T) where
  -- The records of one benchmark.
  abbrev pub of_benchmark : Str → Row → Bool
  of_benchmark b rec = keep rec && bench_of rec == b

  group_record-benchmark :
      (rows rows' : Dict Str T) (rec : Row) (b : Str)
      → group_record keep add bench_of zero rows rec ≡ ok rows'
      → sum_record (of_benchmark b) add (get b zero rows) rec ≡ ok (get b zero rows')
  unfolding group_record sum_record
  group_record-benchmark rows rows' rec b h = elim (Bool-cases (keep rec)) [
    | inl e ↦
        let (row, p, q) =
          bind-eq-ok (add rec (get (bench_of rec) zero rows))
            (λ r. ok (insert (bench_of rec) r rows)) rows' (rw e at h) in
        rw e (elim (Bool-cases (bench_of rec == b)) [
          | inl s ↦
              let eq : bench_of rec ≡ b = (Key.same_iff list_eq (bench_of rec) b).0 s in
              rw (s, ← eq, p)
                (ground (
                  arith,
                  ap (get (bench_of rec) zero) (ok-injective _ _ q),
                  lookup-insert (bench_of rec) (bench_of rec) row rows,
                  Key.same_iff list_eq (bench_of rec) (bench_of rec),
                ))
          | inr s ↦ rw s (
              ground (
                arith,
                ap (get b zero) (ok-injective _ _ q),
                lookup-insert (bench_of rec) b row rows,
              ))
        ])
    | inr e ↦ rw e (cc (rw e at h))
  ]

  -- If the sums by benchmark are computed, then for each benchmark the sum over its records is.
  pub group_records-benchmark :
      (rows rows' : Dict Str T) (recs : List Row) (b : Str)
      → group_records keep add bench_of zero rows recs ≡ ok rows'
      → sum_records (of_benchmark b) add (get b zero rows) recs ≡ ok (get b zero rows')
  unfolding group_records sum_records
  group_records-benchmark rows rows' [] b h = cc
  group_records-benchmark rows rows' (rec ∷ recs) b h =
      let (mid, p, q) =
        bind-eq-ok (group_record keep add bench_of zero rows rec)
          (λ r. group_records keep add bench_of zero r recs) rows' h in
      rw (group_record-benchmark rows mid rec b p) (group_records-benchmark mid rows' recs b q)

  pub group_tables-benchmark :
      (rows rows' : Dict Str T) (tables : List (List Row)) (b : Str)
      → group_tables keep add bench_of zero rows tables ≡ ok rows'
      → sum_records (of_benchmark b) add (get b zero rows) (flatten tables) ≡ ok (get b zero rows')
  unfolding group_tables sum_records flatten
  group_tables-benchmark rows rows' [] b h = cc
  group_tables-benchmark rows rows' (recs ∷ tables) b h =
      let (mid, p, q) =
        bind-eq-ok (group_records keep add bench_of zero rows recs)
          (λ r. group_tables keep add bench_of zero r tables) rows' h in
      rw (sum_records-append, group_records-benchmark rows mid recs b p)
        (group_tables-benchmark mid rows' tables b q)
