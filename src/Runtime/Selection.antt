-- ===== src/Runtime/Selection.antt =====
-- Which row of a benchmark a run-time table is read from.
use desan.Prelude.{
  ◌≡◌, ◌≢◌, refl, ◌∙◌, ap, true, false, Option, none, some, List, [], ◌∷◌, ◌++◌, Dict, lookup,
  lookup-insert, Key, nat_eq, list_eq, ◌==◌, All, arith, Bool-cases, inl, inr, if◌then◌else◌,
}
use mathlib.Core.Path.{subst}
use desan.Py.Text.{Str, codes, or_text}
use desan.Runtime.Spec.{RunResult, is_none, replaces, record_run}

-- A row of a benchmark: the name, what it says, and whether SPEC selected it.
pub record Run {ℓ} (T : Type ℓ) : Type ℓ where
  pub bench : Str
  pub time : Option T
  pub status : Str
  pub selected : Str

module _ {ℓ} {T : Type ℓ} where
  abbrev pub result_of : Run T → RunResult T
  result_of r = record { time = r.time; status = or_text r.status (codes "NR") }

  -- The runs of one benchmark.
  abbrev pub runs_of : Str → List (Run T) → List (Run T)
  runs_of b [] = []
  runs_of b (r ∷ rs) = if r.bench == b then r ∷ runs_of b rs else runs_of b rs

  -- The choice between what is known of a benchmark and its further runs, in their order.
  abbrev pub chosen : Option (RunResult T) → List (Run T) → Option (RunResult T)
  chosen old [] = old
  chosen old (r ∷ rs) =
      chosen (if replaces old r.time r.selected then some (result_of r) else old) rs

  abbrev pub record_runs : Dict Str (RunResult T) → List (Run T) → Dict Str (RunResult T)
  record_runs results [] = results
  record_runs results (r ∷ rs) =
      record_runs (record_run r.bench r.time r.status r.selected results) rs

  record_run-same :
      (results : Dict Str (RunResult T)) (r : Run T)
      → lookup r.bench (record_run r.bench r.time r.status r.selected results)
        ≡ chosen (lookup r.bench results) (r ∷ [])
  unfolding record_run
  record_run-same results r =
      elim (Bool-cases (replaces (lookup r.bench results) r.time r.selected)) [
        | inl e ↦ rw (e, lookup-insert) (ground (arith, Key.same_iff list_eq r.bench r.bench))
        | inr e ↦ rw e
      ]

  record_run-other :
      (b : Str) (results : Dict Str (RunResult T)) (r : Run T)
      → (r.bench == b) ≡ false
      → lookup b (record_run r.bench r.time r.status r.selected results) ≡ lookup b results
  unfolding record_run
  record_run-other b results r h =
      elim (Bool-cases (replaces (lookup r.bench results) r.time r.selected)) [
        | inl e ↦ rw (e, lookup-insert, h)
        | inr e ↦ rw e
      ]

  -- What is recorded of a benchmark is the choice between its own runs.
  pub lookup-record_runs :
      (b : Str) (results : Dict Str (RunResult T)) (rs : List (Run T))
      → lookup b (record_runs results rs) ≡ chosen (lookup b results) (runs_of b rs)
  lookup-record_runs b results [] = refl
  lookup-record_runs b results (r ∷ rs) =
      lookup-record_runs b (record_run r.bench r.time r.status r.selected results) rs
      ∙ elim (Bool-cases (r.bench == b)) [
        | inl e ↦ rw e (
            ap (λ o. chosen o (runs_of b rs))
              (subst
                (λ c.
                  lookup c (record_run r.bench r.time r.status r.selected results)
                  ≡ chosen (lookup c results) (r ∷ []))
                ((Key.same_iff list_eq r.bench b).0 e) (record_run-same results r)))
        | inr e ↦ rw e (ap (λ o. chosen o (runs_of b rs)) (record_run-other b results r e))
      ]

  abbrev pub IsUnselected : Run T → Type 0
  IsUnselected r = (r.selected == codes "1") ≡ false

  -- The first run that has a time, or else the first run.
  abbrev pub first_timed : Run T → List (Run T) → Run T
  first_timed r [] = r
  first_timed r (s ∷ rs) =
      if is_none r.time then first_timed (if is_none s.time then r else s) rs else r

  chosen_timed :
      (o : RunResult T) (rs : List (Run T))
      → is_none o.time ≡ false
      → All IsUnselected rs
      → chosen (some o) rs ≡ some o
  unfolding replaces
  chosen_timed o [] h u = refl
  chosen_timed o (r ∷ rs) h (s, u) = rw (h, s) (chosen_timed o rs h u)

  chosen_from :
      (r : Run T) (rs : List (Run T))
      → All IsUnselected rs
      → chosen (some (result_of r)) rs ≡ some (result_of (first_timed r rs))
  unfolding replaces
  chosen_from r [] u = refl
  chosen_from r (s ∷ rs) (h, u) = elim (Bool-cases (is_none r.time)) [
    | inl e ↦ elim (Bool-cases (is_none s.time)) [
      | inl f ↦ rw (e, f, h) (chosen_from r rs u)
      | inr f ↦ rw (e, f) (chosen_from s rs u)
    ]
    | inr e ↦ rw (e, h) (chosen_timed (result_of r) rs e u)
  ]

  -- If SPEC selected no run of a benchmark, its first run with a time is chosen, or its first run.
  pub chosen-unselected :
      (r : Run T) (rs : List (Run T))
      → All IsUnselected rs
      → chosen none (r ∷ rs) ≡ some (result_of (first_timed r rs))
  unfolding replaces
  chosen-unselected r rs u = chosen_from r rs u

  known : (time : Option T) → time ≢ none → is_none time ≡ false
  known none h = absurd (h refl)
  known (some t) h = refl

  replaces-selected :
      (old : Option (RunResult T)) (r : Run T)
      → (r.selected == codes "1") ≡ true
      → replaces old r.time r.selected ≡ true
  unfolding replaces
  replaces-selected none r h = refl
  replaces-selected (some old) r h = ground (arith, h)

  -- A selected run with a time is chosen if no later run is selected.
  pub chosen-selected :
      (before : List (Run T)) (old : Option (RunResult T)) (after : List (Run T)) (r : Run T)
      → (r.selected == codes "1") ≡ true
      → r.time ≢ none
      → All IsUnselected after
      → chosen old (before ++ (r ∷ after)) ≡ some (result_of r)
  chosen-selected [] old after r s t u =
      rw (replaces-selected old r s, chosen) (chosen_timed (result_of r) after (known r.time t) u)
  chosen-selected (b ∷ before) old after r s t u =
      chosen-selected before (if replaces old b.time b.selected then some (result_of b) else old)
        after r s t u
