-- ===== src/Comparison/Complete.antt =====
-- The status file of the comparison on a machine on which the output can be written.
use desan.Driver.{
  or_key_error, ◌>>=◌, Action, Outcome, done, System, Project, Args, out_base, World, ◌/◌,
}
use desan.Batch.{Book}
use desan.Batch.Statuses.{Task, Statuses, flat}
use desan.Comparison.{run_body, out_name}
use desan.Prelude.{◌≡◌, List, [], ◌∷◌, ◌++◌, Dict, lookup, nat_eq, list_eq}
use desan.Py.Text.{Str, codes}
use desan.Py.Table.{Table}
use desan.Py.Float.{FloatOps}
use desan.Batch.Output.{OutputFailure}

module _ {F : FloatOps} (S : System F) where
  -- The run of a project, inside of the part that catches exceptions
  abbrev pub body_of : Dict Str Project → Args → Str → Action (World S)
  body_of projects args name = or_key_error name (lookup name projects) >>= λ project.
      run_body S name project (out_base / out_name name) args

  -- The tasks of the comparison, in order
  abbrev pub tasks : Dict Str Project → Args → List Str → List (Task S)
  tasks projects args names = flat (λ name. (name ∷ [], body_of projects args name) ∷ []) names

  -- The file has got the names of the fields, and then the rows of all tasks.
  abbrev pub Compared : List (Task S) → Book S → Outcome {0} Unit × Book S → Type 0
  Compared todo b (r, b') =
      (r ≡ done tt)
      × ((rows : Table) × (b'.statuses
            ≡ (b.statuses ++ ((codes "Project" ∷ codes "Status" ∷ codes "Message" ∷ []) ∷ []))
              ++ rows)
          × Statuses S (OutputFailure S) todo rows (done tt))
