-- ===== src/Driver/Runs.antt =====
-- `run_runtime` of scripts/run_oss_batch_after_read_check_elimination.py and
-- scripts/run_oss_asanmm_comparison.py, which differ in the environment of the runs only.
use desan.Prelude.{
  zero, ℕ, suc, ◌&&◌, not, some, List, [], ◌∷◌, ◌++◌, nat_eq, list_eq, if◌then◌else◌,
}
use desan.Prelude.Int.{ℤ, pos, pos_part, is_zero}
use desan.Py.Text.{Str, codes}
use desan.Py.Number.{show}
use desan.Py.Float.{FloatOps}
use desan.Driver.{
  Action, Io, Outcome, done, raised, ◌>>=◌, ◌>>◌, pure, timeout_expired, Env, Command, System,
  Project, Args, show_int, newline, ◌/◌, update_env, World, ask, perform, create, clock, log, sh,
}
use desan.Driver.Source.{is_empty}
use desan.Driver.Build.{inherited}

-- The assignments to the environment of a run that both scripts have
abbrev pub run_settings : Str → Str → Str → ℤ → List (Str × Str)
run_settings app build_dir bench loops =
    (codes "APP", app)
    ∷ (codes "BUILD", build_dir)
    ∷ (codes "BENCH", bench)
    ∷ (codes "LOOPS", show_int loops)
    ∷ []

-- The options of the sanitizers, from the environment before
abbrev pub batch_options : Env → List (Str × Str)
batch_options env =
    inherited env (codes "ASAN_OPTIONS") (codes "detect_leaks=0:alloc_dealloc_mismatch=0")
    ∷ inherited env (codes "LSAN_OPTIONS") (codes "detect_leaks=0")
    ∷ inherited env (codes "UBSAN_OPTIONS") (codes "halt_on_error=0:print_stacktrace=0")
    ∷ inherited env (codes "MSAN_OPTIONS")
        (codes "halt_on_error=0:exit_code=0:report_umrs=0:print_stats=0")
    ∷ []

-- The first row of the table
abbrev pub header : List Str
header = codes "Variant" ∷ codes "Run" ∷ codes "Status" ∷ codes "Seconds" ∷ []

-- A row of the table: `[label, run, status, seconds]`
abbrev pub run_row : Str → ℕ → Str → Str → List Str
run_row label run status seconds = label ∷ show run ∷ status ∷ seconds ∷ []

-- `"S" if rc == 0 else "RE"`
abbrev pub status_of : ℤ → Str
status_of rc = if is_zero rc then codes "S" else codes "RE"

abbrev pub app_of : Str → Str → Str
app_of build_dir artifact = if is_empty artifact then build_dir else build_dir / artifact

module _ {F : FloatOps} (S : System F) where
  abbrev pub write_row : List Str → Action (World S)
  write_row row w = (done tt, record w { runtime = w.runtime ++ (row ∷ []) })

  -- `except subprocess.TimeoutExpired: rc = 124`
  abbrev pub timeout_as_124 : Outcome ℤ → Outcome ℤ
  timeout_as_124 (raised (timeout_expired text)) = done (pos 124)
  timeout_as_124 r = r

  abbrev pub catch_timeout : Io (World S) ℤ → Io (World S) ℤ
  catch_timeout m w = let (r, w') = m w in (timeout_as_124 r, w')

  -- One run, with its time
  unfoldable pub run_once : Str → Command → ℕ → Action (World S)
  unfolding sh
  run_once label command run = do
    start ← clock S
    rc ← catch_timeout (sh S command)
    end ← clock S
    write_row (run_row label run (status_of rc) (F.show_fixed 6 (F.sub end start)))

  -- `for run in range(…)`, for some number of runs from one on
  unfoldable pub run_from : Str → Command → ℕ → ℕ → Action (World S)
  unfolding run_once
  run_from label command run zero = pure tt
  run_from label command run (suc n) =
      run_once label command run >> run_from label command (suc run) n

  unfoldable pub skip_from : Str → ℕ → ℕ → Action (World S)
  skip_from label run zero = pure tt
  skip_from label run (suc n) =
      write_row (run_row label run (codes "NR") []) >> skip_from label (suc run) n

  -- `run_runtime`, with the options of the sanitizers
  unfoldable pub run_with :
      (Env → List (Str × Str)) → Str → Project → Str → Str → Str → Args → Action (World S)
  unfolding run_from skip_from update_env
  run_with options name project label build_dir bench args = do
    let app = app_of build_dir project.artifact
    there ← ask S (S.exists app)
    if not (is_empty project.artifact) && not there
        then (do
          log S (
              codes "missing artifact for "
              ++ name
              ++ codes " "
              ++ label
              ++ codes ": "
              ++ app
              ++ newline)
          skip_from label 1 (pos_part args.runs))
        else run_from label
            (record {
              text = codes "set -e; " ++ project.run;
              cwd = build_dir;
              env = some (
                  update_env (run_settings app build_dir bench args.loops ++ options S.environ)
                    S.environ);
              timeout = args.run_timeout;
            })
            1 (pos_part args.runs)

  -- `with path.open("w") as f: csv.writer(f).writerow(header)` and the rows that follow, which are in
  -- the file when it is closed, after an exception too.
  unfoldable pub with_runtime : Str → Action (World S) → Action (World S)
  with_runtime path rows = perform S (create path) >> (λ w.
      let (r, w') = rows (record w { runtime = header ∷ [] }) in
      (r, record w' { system = S.save path w'.runtime w'.system }))

  -- The runs of the three variants of a project, from where they are built, and their table
  unfoldable pub measure :
      (Env → List (Str × Str))
      → Str
      → Project
      → Str
      → Args
      → Str
      → Str × Str
      → Str × Str
      → Str × Str
      → Action (World S)
  unfolding run_with with_runtime
  measure options name project bench args runtime_csv native base last = with_runtime runtime_csv (
      run_with options name project native.0 native.1 bench args
      >> run_with options name project base.0 base.1 bench args
      >> run_with options name project last.0 last.1 bench args)
