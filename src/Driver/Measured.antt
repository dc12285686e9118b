-- ===== src/Driver/Measured.antt =====
-- The table of the runs of the three variants of a project, on a machine on which it can be written.
use desan.Prelude.{
  ℕ, ◌≡◌, refl, sym, ap, ◌∙◌, true, some, List, [], ◌∷◌, ◌++◌, length, get, ◌*◌, nat_eq, list_eq,
  option_eq,
}
use mathlib.Core.List.{append-nil, append_assoc}
use desan.Prelude.Int.{pos_part}
use desan.Py.Text.{Str}
use desan.Py.Table.{Table}
use desan.Py.Float.{FloatOps}
use desan.Runtime.Project.{parse_project_runtime}
use desan.Driver.{
  Action, ◌>>◌, Outcome, done, raised, Raised, after, create, Command, System, Project, Args, Env,
  World,
}
use desan.Driver.Runs.{header, run_with, with_runtime, measure}
use desan.Driver.RunLaws.{IsShellFailure, is_timeout, WritesRuns, run_with-WritesRuns}
use desan.Driver.RunTables.{Blocks, occurrences, length-parse_project_runtime}

Blocks-append :
    (labels more : List Str) (runs : ℕ) (rows rows' : Table)
    → Blocks labels runs rows
    → Blocks more runs rows'
    → Blocks (labels ++ more) runs (rows ++ rows')
Blocks-append [] more runs rows rows' h h' = rw h h'
Blocks-append (label ∷ labels) more runs rows rows' (first, rest, e, numbered, l, h) h' = (
  first,
  rest ++ rows',
  ap (λ t. t ++ rows') e ∙ append_assoc first rest rows',
  numbered,
  l,
  Blocks-append labels more runs rest rows' h h',
)

module _ {F : FloatOps} (S : System F) where
  -- All runs of some variants are written, or else bash has raised an exception that is no timeout.
  abbrev pub WritesBlocks : List Str → ℕ → World S → Outcome {0} Unit × World S → Type 0
  WritesBlocks labels runs w (done u, w') =
      (rows : Table) × (w'.runtime ≡ w.runtime ++ rows) × Blocks labels runs rows
  WritesBlocks labels runs w (raised e, w') = IsShellFailure S e

  WritesRuns-WritesBlocks :
      (label : Str) (runs : ℕ) (w : World S) (p : Outcome {0} Unit × World S)
      → WritesRuns S label 1 runs w p
      → WritesBlocks (label ∷ []) runs w p
  WritesRuns-WritesBlocks label runs w (done u, w') (rows, e, numbered, l) =
      (rows, e, (rows, [], sym (append-nil rows), numbered, l, refl))
  WritesRuns-WritesBlocks label runs w (raised e, w') (rows, _, numbered, (_, failed)) = failed

  WritesBlocks-join :
      (labels more : List Str) (runs : ℕ) (w w' : World S) (rows : Table)
      (p : Outcome {0} Unit × World S)
      → w'.runtime ≡ w.runtime ++ rows
      → Blocks labels runs rows
      → WritesBlocks more runs w' p
      → WritesBlocks (labels ++ more) runs w p
  WritesBlocks-join labels more runs w w' rows (raised e, w'') h b failed = failed
  WritesBlocks-join labels more runs w w' rows (done u, w'') h b (rows', h', b') = (
    rows ++ rows',
    h' ∙ ap (λ t. t ++ rows') h ∙ append_assoc w.runtime rows rows',
    Blocks-append labels more runs rows rows' b b',
  )

  WritesBlocks-after :
      (labels more : List Str) (runs : ℕ) (next : Action (World S)) (w : World S)
      (p : Outcome {0} Unit × World S)
      → WritesBlocks labels runs w p
      → ((w' : World S) → WritesBlocks more runs w' (next w'))
      → WritesBlocks (labels ++ more) runs w (after (λ u. next) p)
  WritesBlocks-after labels more runs next w (raised e, w') failed hn = failed
  WritesBlocks-after labels more runs next w (done u, w') (rows, e, h) hn =
      WritesBlocks-join labels more runs w w' rows (next w') e h (hn w')

  -- bash starts each command: what it raises are timeouts only.
  abbrev pub StartsCommands : Type 0
  StartsCommands =
      (command : Command) (s : S.State) (e : Raised)
      → (S.bash command s).0 ≡ raised e
      → is_timeout e ≡ true

  -- What is in the table when it is closed
  abbrev Measured : List Str → ℕ → Outcome {0} Unit × World S → Type 0
  Measured labels runs (r, w) =
      (r ≡ done tt)
      × ((v : Str)
          → length (get (some v) [] (parse_project_runtime F (some w.runtime)))
            ≡ occurrences v labels * runs)

  WritesBlocks-Measured :
      (labels : List Str) (runs : ℕ) (s : S.State) (p : Outcome {0} Unit × World S)
      → StartsCommands
      → WritesBlocks labels runs (record { system = s; runtime = header ∷ [] }) p
      → Measured labels runs p
  WritesBlocks-Measured labels runs s (raised e, w) starts (command, s', raises, late) =
      cc (starts command s' e raises)
  WritesBlocks-Measured labels runs s (done u, w) starts (rows, e, b) = (
    refl,
    (λ v.
        ap (λ t. length (get (some v) [] (parse_project_runtime F (some t)))) e
        ∙ length-parse_project_runtime F v labels runs rows b),
  )

  closed :
      (labels : List Str) (runs : ℕ) (path : Str) (rows : Action (World S)) (w : World S)
      (p : Outcome {0} Unit × S.State)
      → StartsCommands
      → p.0 ≡ done tt
      → ((w' : World S) → WritesBlocks labels runs w' (rows w'))
      → Measured labels runs (
          after
            (λ u w'.
              let (r, w'') = rows (record w' { runtime = header ∷ [] }) in
              (r, record w'' { system = S.save path w''.runtime w''.system }))
            (p.0, record w { system = p.1 }))
  closed labels runs path rows w (raised e, s) starts h hr = cc h
  closed labels runs path rows w (done u, s) starts h hr =
      WritesBlocks-Measured labels runs s _ starts
        (hr (record { system = s; runtime = header ∷ [] }))

  -- If bash starts each command and the table can be opened, then the three variants are measured
  -- without an exception, whatever the commands do and however they end; and from the table
  -- parse_runtime_csv reads, for each name, as many runs as were asked for, for each time that the
  -- name is the label of a variant.
  pub measure-Measured :
      (options : Env → List (Str × Str)) (name : Str) (project : Project) (bench : Str)
      (args : Args) (runtime_csv : Str) (native base last : Str × Str) (w : World S)
      → StartsCommands
      → (S.perform (create runtime_csv) w.system).0 ≡ done tt
      → let (r, w') = measure S options name project bench args runtime_csv native base last w in
        (r ≡ done tt)
        × ((v : Str)
            → length (get (some v) [] (parse_project_runtime F (some w'.runtime)))
              ≡ occurrences v (native.0 ∷ base.0 ∷ last.0 ∷ []) * pos_part args.runs)
  unfolding measure with_runtime
  measure-Measured options name project bench args runtime_csv native base last w starts h =
      let runs = pos_part args.runs in
      let run : Str × Str → Action (World S) =
        λ v. run_with S options name project v.0 v.1 bench args in
      let run-WritesBlocks : (v : Str × Str) (w' : World S)
          → WritesBlocks (v.0 ∷ []) runs w' (run v w') =
        λ v w'.
          WritesRuns-WritesBlocks v.0 runs w' (run v w')
            (run_with-WritesRuns S options name project v.0 v.1 bench args w') in
      closed (native.0 ∷ base.0 ∷ last.0 ∷ []) runs runtime_csv (run native >> run base >> run last)
        w (S.perform (create runtime_csv) w.system) starts h
        (λ w'.
          WritesBlocks-after (native.0 ∷ base.0 ∷ []) (last.0 ∷ []) runs (run last) w'
            ((run native >> run base) w')
            (WritesBlocks-after (native.0 ∷ []) (base.0 ∷ []) runs (run base) w' (run native w')
              (run-WritesBlocks native w') (run-WritesBlocks base))
            (run-WritesBlocks last))
