-- ===== src/Summary.antt =====
-- What `main` of the five summary scripts share: the names of the benchmarks, the ratios of two counts,
-- and how the cells of the printed table are written.
pub mod Names
pub mod Asan
pub mod Asanmm
pub mod Totality
pub mod Comparisons
use desan.Prelude.{
  ℕ, zero, suc, ◌≡◌, refl, Bool, true, false, Option, none, some, List, [], ◌∷◌, ◌++◌, Dict, lookup,
  keys, nat_eq, list_eq, ◌==◌, if◌then◌else◌,
}
use desan.Prelude.Int.{ℤ, pos, negsuc, is_zero}
use desan.Py.Result.{Result, ok, err, PyError}
use desan.Py.Text.{Str, codes}
use desan.Py.Number.{show}
use desan.Py.Float.{FloatOps}
use desan.CountChecks.{str_lt}
use desan.Runtime.Spec.{RunResult}

-- `results.get(bench, {}).get("time")`
unfoldable pub time_of {ℓ} : {T : Type ℓ} → Str → Dict Str (RunResult T) → Option T
time_of bench results = elim (lookup bench results) [ none ↦ none | some r ↦ r.time ]

-- `results.get(bench, {}).get("status", "NR")`
unfoldable pub status_of {ℓ} : {T : Type ℓ} → Str → Dict Str (RunResult T) → Str
status_of bench results = elim (lookup bench results) [ none ↦ codes "NR" | some r ↦ r.status ]

-- A name into the sorted list of a set.
unfoldable pub insert_name : Str → List Str → List Str
unfolding str_lt
insert_name x [] = x ∷ []
insert_name x (y ∷ ys) =
    let rest = insert_name x ys in
    if x == y then y ∷ ys else if str_lt x y then x ∷ y ∷ ys else y ∷ rest

-- `sorted(set(a) | set(b) | …)`, for the names of all the tables.
unfoldable pub sorted_names : List Str → List Str
unfolding insert_name
sorted_names [] = []
sorted_names (x ∷ xs) = insert_name x (sorted_names xs)

-- `(part / whole * 100.0) if whole else None`
module _ (F : FloatOps) where
  unfoldable pub percent_of : ℤ → ℤ → Result (Option F.Float)
  unfolding is_zero
  percent_of part whole = if is_zero whole then ok none else elim (F.int_div part whole) [
    | none ↦ err PyError.zero_division_error
    | some q ↦ ok (some (F.mul q F.hundred))
  ]

  -- `flt` and `fmt_float`
  unfoldable pub fmt_float : Option F.Float → Str
  fmt_float none = codes "--"
  fmt_float (some x) = F.show_fixed 3 x

  -- `pct` and `fmt_pct`
  unfoldable pub fmt_pct : Option F.Float → Str
  fmt_pct none = codes "--"
  fmt_pct (some x) = F.show_fixed 2 x ++ codes "%"

-- The digits, the last one first, with a comma behind each three: `k` counts down to the next comma.
commas : ℕ → Str → Str → Str
commas k [] rest = rest
commas zero (d ∷ ds) rest = commas 2 ds (d ∷ b',' ∷ rest)
commas (suc k) (d ∷ ds) rest = commas k ds (d ∷ rest)

reversed : Str → Str → Str
reversed [] rest = rest
reversed (c ∷ s) rest = reversed s (c ∷ rest)

-- `num` and `fmt_int`: `f"{int(value):,}"`
unfoldable pub fmt_int : ℤ → Str
unfolding commas reversed show
fmt_int (pos n) = commas 3 (reversed (show n) []) []
fmt_int (negsuc n) = b'-' ∷ commas 3 (reversed (show (suc n)) []) []

fmt_int_test : fmt_int (negsuc 1234566) ≡ codes "-1,234,567"
unfolding fmt_int
fmt_int_test = refl

fmt_int_small : fmt_int (pos 123) ≡ codes "123"
unfolding fmt_int
fmt_int_small = refl

-- `" | ".join(cells)`
unfoldable pub join_cells : List Str → Str
join_cells [] = []
join_cells (s ∷ []) = s
join_cells (s ∷ t ∷ cells) = s ++ codes " | " ++ join_cells (t ∷ cells)

-- `"| " + " | ".join(cells) + " |"`
unfoldable pub table_line : List Str → Str
unfolding join_cells
table_line cells = codes "| " ++ join_cells cells ++ codes " |"

-- `f"{a}->{b}->{c}"`
unfoldable pub fmt_statuses : Str → Str → Str → Str
fmt_statuses a b c = a ++ codes "->" ++ b ++ codes "->" ++ c
