-- ===== src/Driver/RunLaws.antt =====
-- `run_runtime`: which rows it writes, whatever the machine does.
use desan.Driver.{
  pos, newline, is_zero, ◌>>=◌, runtime_error, value_error, key_error, os_error, Action, Outcome,
  done, raised, Raised, timeout_expired, after, Command, System, Project, Args, Env, World, sh,
  clock, type_error,
}
use mathlib.Core.List.{append-nil, append_assoc}
use desan.Prelude.{
  ℕ, zero, suc, ◌<◌, ◌≡◌, refl, sym, ap, ◌∙◌, Bool, true, false, ◌&&◌, not, Bool-cases, ◌⊎◌, inl,
  inr, List, [], ◌∷◌, ◌++◌, length, arith,
}
use desan.Prelude.Int.{ℤ, pos_part}
use desan.Py.Text.{Str, codes}
use desan.Py.Table.{Table}
use desan.Py.Float.{FloatOps}
use desan.Driver.Source.{is_empty}
use desan.Driver.Runs.{
  run_row, status_of, app_of, write_row, timeout_as_124, run_once, run_from, skip_from, run_with,
}

-- The status and the time of a run: a run that is skipped has no time.
abbrev pub IsStatus : Str → Str → Type 0
IsStatus status seconds =
    (status ≡ codes "S") ⊎ ((status ≡ codes "RE") ⊎ ((status ≡ codes "NR") × (seconds ≡ [])))

-- A row of a run of a variant
abbrev pub IsRun : Str → ℕ → List Str → Type 0
IsRun label run row =
    (status : Str) × (seconds : Str) × (row ≡ run_row label run status seconds)
    × IsStatus status seconds

-- Rows with the numbers from some number on
abbrev pub Numbered : Str → ℕ → Table → Type 0
Numbered label run [] = Unit
Numbered label run (row ∷ rows) = IsRun label run row × Numbered label (suc run) rows

abbrev pub is_timeout : Raised → Bool
is_timeout (timeout_expired text) = true
is_timeout e = false

module _ {F : FloatOps} (S : System F) where
  -- An exception of bash that is no timeout
  abbrev pub IsShellFailure : Raised → Type 0
  IsShellFailure e =
      (command : Command) × (s : S.State) × ((S.bash command s).0 ≡ raised e)
      × (is_timeout e ≡ false)

  -- All of some runs are written, or else fewer, with an exception of bash that is no timeout.
  abbrev pub Complete : Outcome {0} Unit → ℕ → ℕ → Type 0
  Complete (done u) written runs = written ≡ runs
  Complete (raised e) written runs = (written < runs) × IsShellFailure e

  -- What a program writes of the runs of a variant that are due from a number on
  abbrev pub WritesRuns : Str → ℕ → ℕ → World S → Outcome {0} Unit × World S → Type 0
  WritesRuns label run runs w (r, w') =
      (rows : Table) × (w'.runtime ≡ w.runtime ++ rows)
      × Numbered label run rows
      × Complete r (length rows) runs

  abbrev WritesOne : Str → ℕ → World S → Outcome {0} Unit × World S → Type 0
  WritesOne label run w (done u, w') =
      (row : List Str) × (w'.runtime ≡ w.runtime ++ (row ∷ [])) × IsRun label run row
  WritesOne label run w (raised e, w') = (w'.runtime ≡ w.runtime) × IsShellFailure e

  status_of-IsStatus : (rc : ℤ) (seconds : Str) → IsStatus (status_of rc) seconds
  status_of-IsStatus rc seconds = elim (Bool-cases (is_zero rc)) [
    | inl e ↦ inl (rw e)
    | inr e ↦ inr (inl (rw e))
  ]

  Complete-suc :
      (r : Outcome {0} Unit) (written runs : ℕ)
      → Complete r written runs
      → Complete r (suc written) (suc runs)
  Complete-suc (done u) written runs h = ap suc h
  Complete-suc (raised e) written runs (h, failed) = (omega (arith, h), failed)

  WritesRuns-after :
      (label : Str) (run runs : ℕ) (next : Action (World S)) (w : World S)
      (p : Outcome {0} Unit × World S)
      → WritesOne label run w p
      → ((w' : World S) → WritesRuns label (suc run) runs w' (next w'))
      → WritesRuns label run (suc runs) w (after (λ u. next) p)
  WritesRuns-after label run runs next w (raised e, w') (h, failed) hn =
      ([], h ∙ sym (append-nil w.runtime), tt, (omega arith, failed))
  WritesRuns-after label run runs next w (done u, w') (row, h, is_run) hn =
      let (rows, e, numbered, complete) = hn w' in
      (
        row ∷ rows,
        e ∙ ap (λ t. t ++ rows) h ∙ append_assoc w.runtime (row ∷ []) rows,
        (is_run, numbered),
        Complete-suc (next w').0 (length rows) runs complete,
      )

  -- The rest of a run, from what the shell has given
  abbrev record_run : Str → ℕ → F.Float → Outcome ℤ × World S → Outcome {0} Unit × World S
  record_run label run start p =
      after
        (λ rc. clock S >>= λ end.
          write_row S (run_row label run (status_of rc) (F.show_fixed 6 (F.sub end start))))
        (timeout_as_124 S p.0, p.1)

  written :
      (label : Str) (run : ℕ) (rc : ℤ) (w w' : World S) (seconds : Str)
      → w'.runtime ≡ w.runtime
      → (row : List Str) × (w'.runtime ++ (run_row label run (status_of rc) seconds ∷ [])
          ≡ w.runtime ++ (row ∷ []))
        × IsRun label run row
  written label run rc w w' seconds h = (
    run_row label run (status_of rc) seconds,
    ap (λ t. t ++ (run_row label run (status_of rc) seconds ∷ [])) h,
    (status_of rc, seconds, refl, status_of-IsStatus rc seconds),
  )

  record_run-WritesOne :
      (label : Str) (run : ℕ) (start : F.Float) (command : Command) (s : S.State) (w : World S)
      (r : Outcome ℤ) (w' : World S)
      → (S.bash command s).0 ≡ r
      → w'.runtime ≡ w.runtime
      → WritesOne label run w (record_run label run start (r, w'))
  record_run-WritesOne label run start command s w (done rc) w' e h = written label run rc w w' _ h
  record_run-WritesOne label run start command s w (raised (timeout_expired text)) w' e h =
      written label run (pos 124) w w' _ h
  record_run-WritesOne label run start command s w (raised (runtime_error text)) w' e h =
      (h, (command, s, e, refl))
  record_run-WritesOne label run start command s w (raised (value_error text)) w' e h =
      (h, (command, s, e, refl))
  record_run-WritesOne label run start command s w (raised (key_error text)) w' e h =
      (h, (command, s, e, refl))
  record_run-WritesOne label run start command s w (raised (type_error text)) w' e h =
      (h, (command, s, e, refl))
  record_run-WritesOne label run start command s w (raised (os_error text)) w' e h =
      (h, (command, s, e, refl))

  run_once-WritesOne :
      (label : Str) (command : Command) (run : ℕ) (w : World S)
      → WritesOne label run w (run_once S label command run w)
  unfolding run_once sh
  run_once-WritesOne label command run w =
      let (start, s) = S.clock w.system in
      let s' = S.log (codes "$ " ++ command.text ++ newline) s in
      let (r, s'') = S.bash command s' in
      record_run-WritesOne label run start command s' w r (record w { system = s'' }) refl refl

  run_from-WritesRuns :
      (label : Str) (command : Command) (run runs : ℕ) (w : World S)
      → WritesRuns label run runs w (run_from S label command run runs w)
  unfolding run_from
  run_from-WritesRuns label command run zero w = ([], sym (append-nil w.runtime), tt, refl)
  run_from-WritesRuns label command run (suc runs) w =
      WritesRuns-after label run runs (run_from S label command (suc run) runs) w
        (run_once S label command run w) (run_once-WritesOne label command run w)
        (λ w'. run_from-WritesRuns label command (suc run) runs w')

  skip_from-WritesRuns :
      (label : Str) (run runs : ℕ) (w : World S)
      → WritesRuns label run runs w (skip_from S label run runs w)
  unfolding skip_from
  skip_from-WritesRuns label run zero w = ([], sym (append-nil w.runtime), tt, refl)
  skip_from-WritesRuns label run (suc runs) w =
      WritesRuns-after label run runs (skip_from S label (suc run) runs) w
        (write_row S (run_row label run (codes "NR") []) w)
        (run_row label run (codes "NR") [], refl, (codes "NR", [], refl, inr (inr (refl, refl))))
        (λ w'. skip_from-WritesRuns label (suc run) runs w')

  -- Whatever the machine does, the runs of a variant are written in order: as many rows as there are
  -- runs, with the numbers from 1 on, or else fewer, after an exception of bash that is no timeout.
  pub run_with-WritesRuns :
      (options : Env → List (Str × Str)) (name : Str) (project : Project)
      (label build_dir bench : Str) (args : Args) (w : World S)
      → WritesRuns label 1
          (pos_part args.runs)
          w
          (run_with S options name project label build_dir bench args w)
  unfolding run_with
  run_with-WritesRuns options name project label build_dir bench args w =
      elim (Bool-cases (
        not (is_empty project.artifact)
        && not (S.exists (app_of build_dir project.artifact) w.system))) [
          | inl e ↦ rw e (skip_from-WritesRuns label 1 (pos_part args.runs) _)
          | inr e ↦ rw e (run_from-WritesRuns label _ 1 (pos_part args.runs) w)
        ]
