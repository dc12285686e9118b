-- ===== src/RemovedAccess/Totals.antt =====
-- The rows of a level are computed, and its total is the sum of its rows.
use desan.RemovedAccess.{
  row_from, Access, AccessRow, Total, add_access, pct, access_row, bench_rows,
}
use desan.Prelude.{
  ◌≡◌, refl, false, Option, none, some, List, [], ◌∷◌, Dict, get, nat_eq, list_eq, Bool-cases, inl,
  inr,
}
use desan.Prelude.Int.{ℤ, pos, ◌+ℤ◌, is_zero}
use desan.Py.Result.{ok}
use desan.Py.Text.{Str}
use desan.Py.Float.{FloatOps, IsIeee}

-- The total, continued over rows.
abbrev pub add_rows : Total → List AccessRow → Total
add_rows total [] = total
add_rows (reported, access) (row ∷ rows) =
    add_rows (reported +ℤ row.reported, add_access access row.access) rows

-- A row for each bench, with what is counted and reported for it.
abbrev pub RowsOf : Str → Dict Str ℤ → (Str × Str → Access) → List Str → List AccessRow → Type 0
RowsOf level summary counts [] [] = Unit
RowsOf level summary counts (bench ∷ benches) (row ∷ rows) =
    (row.bench ≡ bench)
    × (row.access ≡ counts (level, bench))
    × (row.reported ≡ get bench (pos (counts (level, bench)).detected) summary)
    × RowsOf level summary counts benches rows
RowsOf level summary counts _ _ = ⊥

-- An integer other than 0 is no float that equals 0.
abbrev pub KeepsNonzero : (F : FloatOps) → (ℤ → F.Float) → Type 0
KeepsNonzero F of_int = (n : ℤ) → is_zero n ≡ false → F.eq (of_int n) F.zero ≡ false

module _ (F : FloatOps) (of_int : ℤ → F.Float) (ieee : IsIeee F)
    (nonzero : KeepsNonzero F of_int) where
  pct-eq-ok : (num den : ℤ) → (r : Option F.Float) × (pct F of_int num den ≡ ok r)
  unfolding pct
  pct-eq-ok num den = elim (Bool-cases (is_zero den)) [
    | inl e ↦ (none, rw e)
    | inr e ↦
        let (q, p) = ieee.div-total (F.mul (of_int num) F.hundred) (of_int den) (nonzero den e) in
        (some q, rw (e, p))
  ]

  pub access_row-eq-ok :
      (level bench : Str) (reported : ℤ) (c : Access)
      → (row : AccessRow) × (access_row F of_int level bench reported c ≡ ok row)
        × (row.bench ≡ bench)
        × (row.access ≡ c)
        × (row.reported ≡ reported)
  unfolding access_row
  access_row-eq-ok level bench reported c =
      let (r1, e1) = pct-eq-ok (pos c.read) (pos c.detected) in
      let (r2, e2) = pct-eq-ok (pos c.write) (pos c.detected) in
      let (r3, e3) = pct-eq-ok (pos c.unknown) (pos c.detected) in
      let (r4, e4) = pct-eq-ok (pos c.detected) reported in
      (row_from F of_int level bench reported c r1 r2 r3 r4, rw (e1, e2, e3, e4), refl, refl, refl)

  -- With IEEE floats, and with integers other than 0 becoming floats other than 0, the loop over
  -- the benches of a level ends without an exception. It gives a row for each bench, in order, with
  -- the counters of the level and the bench and with the number that the summary reports, or that
  -- of the detected checks if it reports none; the total of the level is the sum of the rows.
  pub bench_rows-eq-ok :
      (level : Str) (summary : Dict Str ℤ) (counts : Str × Str → Access) (total : Total)
      (benches : List Str)
      → (rows : List AccessRow) × (bench_rows F of_int level summary counts total benches
          ≡ ok (rows, add_rows total rows))
        × RowsOf level summary counts benches rows
  unfolding bench_rows
  bench_rows-eq-ok level summary counts total [] = ([], refl, tt)
  bench_rows-eq-ok level summary counts (reported, access) (bench ∷ benches) =
      let c = counts (level, bench) in
      let n = get bench (pos c.detected) summary in
      let (row, e, eb, ea, er) = access_row-eq-ok level bench n c in
      let (rows, es, h) =
        bench_rows-eq-ok level summary counts (reported +ℤ n, add_access access c) benches in
      (row ∷ rows, rw (e, es, ea, er), (eb, ea, er, h))
