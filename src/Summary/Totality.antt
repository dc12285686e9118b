-- ===== src/Summary/Totality.antt =====
-- The summaries are computed: no division by zero ends a script between its parsed inputs and its
-- table, and it is known which benchmarks have a row.
use desan.Prelude.{
  nat_eq, list_eq, ◌≡◌, ◌≢◌, ◌↔◌, refl, Bool, false, Option, none, some, List, [], ◌∷◌, Dict, get,
  Bool-cases, inl, inr, if◌then◌else◌, arith,
}
use desan.Prelude.Int.{ℤ, pos, negsuc, is_zero}
use desan.Py.Result.{ok}
use desan.Py.Text.{Str}
use desan.Py.Float.{FloatOps, IsIeee}
use desan.Overhead.Laws.{compute_overhead_metrics-eq-ok}
use desan.Records.Asan.{Counts, zero_counts}
use desan.Runtime.Spec.{RunResult}
use desan.Summary.{percent_of}
use desan.Summary.Asan.{SummaryRow, Results, asan_row, summary_row, run_of, is_absent, suite_rows}

is_zero_pos : (a : ℤ) → is_zero a ≡ false → a ≢ pos 0
unfolding is_zero
is_zero_pos (pos n) h = ground arith
is_zero_pos (negsuc n) h = cc

-- The benchmarks that are compiled or run, in their order.
unfoldable pub kept {ℓ} : {A : Type ℓ} → (A → Bool) → List A → List A
kept drop [] = []
kept drop (x ∷ xs) = let rest = kept drop xs in if drop x then rest else x ∷ rest

-- The two lists have the same length, and what stands in the same place fits.
abbrev pub Matches {ℓ κ} : {A : Type ℓ} {B : Type κ} → (A → B → Type 0) → List A → List B → Type 0
Matches Fits [] [] = Unit
Matches Fits (a ∷ as') (b ∷ bs) = Fits a b × Matches Fits as' bs
Matches Fits _ _ = ⊥

module _ (F : FloatOps) where
  open F use {Float}

  -- What a row of the summary says of the counts.
  pub record Describes (bench : Str) (c : Counts) (row : SummaryRow Float) : Type 0 where
    pub named : row.benchmark ≡ bench
    pub originals : row.original_checks ≡ c.total_checks
    pub removed : row.removed_checks ≡ c.removed_checks
    pub core_known : (row.core_ratio ≢ none) ↔ (is_zero c.total_checks ≡ false)
    pub removal_known : (row.removal_ratio ≢ none) ↔ (is_zero c.total_checks ≡ false)
    pub core_removal_known : (row.core_removal_ratio ≢ none) ↔ (is_zero c.core_checks ≡ false)

module _ (F : FloatOps) (ieee : IsIeee F) where
  open F use {Float}

  -- A ratio is known exactly when the whole is not 0.
  pub percent_of-eq-ok :
      (part whole : ℤ)
      → (r : Option Float) × (percent_of F part whole ≡ ok r)
        × ((r ≢ none) ↔ (is_zero whole ≡ false))
  unfolding percent_of
  percent_of-eq-ok part whole = elim (Bool-cases (is_zero whole)) [
    | inl e ↦ (none, rw e, (λ h. absurd (h refl), λ h. cc))
    | inr e ↦
        let (q, p) = ieee.int_div-total part whole (is_zero_pos whole e) in
        (some (F.mul q F.hundred), rw (e, p), (λ _. e, λ _ h. cc))
  ]

  asan_row-eq-ok :
      (suite bench : Str) (c : Counts) (native before after : RunResult Float)
      → (row : SummaryRow Float) × (asan_row F suite bench c native before after ≡ ok row)
        × Describes F bench c row
  unfolding asan_row
  asan_row-eq-ok suite bench c native before after =
      let (m, em, _, _, _) =
        compute_overhead_metrics-eq-ok F ieee native.status before.status after.status native.time
          before.time after.time in
      let (r1, e1, k1) = percent_of-eq-ok c.core_checks c.total_checks in
      let (r2, e2, k2) = percent_of-eq-ok c.removed_checks c.total_checks in
      let (r3, e3, k3) = percent_of-eq-ok c.removed_checks c.core_checks in
      (
        summary_row F suite bench c native before after m r1 r2 r3,
        rw (em, e1, e2, e3),
        record {
          named = refl;
          originals = refl;
          removed = refl;
          core_known = k1;
          removal_known = k2;
          core_removal_known = k3;
        },
      )

  -- With IEEE floats the loop of scripts/spec_asan_summary.py ends without an exception, and its
  -- rows are, in order, those of the benchmarks that are compiled or run: each has its benchmark's
  -- counts, and its ratios are known exactly where their wholes are not 0.
  pub suite_rows-eq-ok :
      (suite : Str) (counts : Dict Str Counts) (native before after : Results F)
      (benches : List Str)
      → (rows : List (SummaryRow Float)) × (suite_rows F suite counts native before after benches
          ≡ ok rows)
        × Matches
            (λ b. Describes F b (get b zero_counts counts))
            (kept (is_absent F counts native before after) benches)
            rows
  unfolding suite_rows kept
  suite_rows-eq-ok suite counts native before after [] = ([], refl, tt)
  suite_rows-eq-ok suite counts native before after (bench ∷ benches) =
      let (rows, e, d) = suite_rows-eq-ok suite counts native before after benches in
      elim (Bool-cases (is_absent F counts native before after bench)) [
        | inl a ↦ (rows, rw (a, e), rw a d)
        | inr a ↦
            let (row, er, dr) =
              asan_row-eq-ok suite bench (get bench zero_counts counts) (run_of F bench native)
                (run_of F bench before) (run_of F bench after) in
            (row ∷ rows, rw (a, er, e), rw a (dr, d))
      ]
