-- ===== src/Tests/RemovedAccess.antt =====
-- The rows of the removed accesses for two files, in both orders of completion.
use mathlib.Core.List.{Permᴰ}
use desan.Prelude.{◌≡◌, refl, List, [], ◌∷◌, Dict, arith}
use desan.Prelude.Int.{ℤ, pos, negsuc, is_zero}
use desan.Py.Result.{ok}
use desan.Py.Text.{Str, codes}
use desan.RemovedAccess.{Access, AccessRow, FileResult, bench_rows, main, no_access, Total}
use desan.RemovedAccess.Completion.{main_perm}
use desan.RemovedAccess.Totals.{KeepsNonzero, RowsOf, add_rows, bench_rows-eq-ok}
use desan.Tests.Floats.{whole, whole-IsIeee}

abbrev pub access : Access
access = record { detected = 4; read = 3; write = 1; unknown = 0 }

abbrev pub file : Str → FileResult
file bench = record { level = codes "L1"; bench = bench; access = access }

abbrev pub reported : Dict Str (Dict Str ℤ)
reported = (codes "L1", (codes "470.lbm", pos 5) ∷ []) ∷ []

abbrev pub of_int : ℤ → ℤ
of_int n = n

main_perm_example :
    main whole of_int reported
      (codes "L1" ∷ [])
      (file (codes "470.lbm") ∷ file (codes "429.mcf") ∷ [])
    ≡ main whole of_int reported
        (codes "L1" ∷ [])
        (file (codes "429.mcf") ∷ file (codes "470.lbm") ∷ [])
main_perm_example =
    main_perm whole of_int reported (codes "L1" ∷ [])
      (file (codes "470.lbm") ∷ file (codes "429.mcf") ∷ [])
      (file (codes "429.mcf") ∷ file (codes "470.lbm") ∷ []) (Permᴰ.swap refl refl)

pub of_int-KeepsNonzero : KeepsNonzero whole of_int
unfolding is_zero
of_int-KeepsNonzero (pos n) h = ground arith
of_int-KeepsNonzero (negsuc n) h = ground arith

abbrev start : Total
start = (pos 0, no_access)

abbrev counts : Str × Str → Access
counts k = access

bench_rows-eq-ok_example :
    (rows : List AccessRow) × (bench_rows whole of_int
        (codes "L1")
        []
        counts
        start
        (codes "470.lbm" ∷ [])
      ≡ ok (rows, add_rows start rows))
    × RowsOf (codes "L1") [] counts (codes "470.lbm" ∷ []) rows
bench_rows-eq-ok_example =
    bench_rows-eq-ok whole of_int whole-IsIeee of_int-KeepsNonzero (codes "L1") [] counts start
      (codes "470.lbm" ∷ [])
