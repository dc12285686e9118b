-- ===== src/Batch/Complete.antt =====
-- The status file of a batch on a machine on which the output can be written: whatever the commands,
-- the sources and the builds of the projects do, each project and sanitizer gets its row.
use desan.Driver.{Project, Outcome, done, raised, Raised, Effect, System, perform}
use desan.Prelude.{
  contains, true, false, contains-keys, Bool, refl, inl, inr, lookup, Dict, All, ◌≢◌, nat_eq,
  list_eq, [], ◌∷◌, List, Bool-cases, ◌≡◌, ◌++◌,
}
use desan.Batch.{keys, check_names, Table, codes, none, Book}
use desan.Driver.Names.{check_names}
use desan.Batch.Statuses.{Task, Statuses, Reports}
use desan.Py.Text.{Str}
use desan.Py.Float.{FloatOps}
use desan.Batch.Output.{IsOutput, OutputFailure}

module _ {F : FloatOps} (S : System F) where
  -- The changes of the output raise nothing.
  abbrev pub OutputWorks : Type 0
  OutputWorks = (effect : Effect) (s : S.State) → IsOutput effect → (S.perform effect s).0 ≡ done tt

  -- All keys have got their rows, after what was in the file before.
  abbrev pub AllReported : List (Task S) → Book S → Outcome {0} Unit × Book S → Type 0
  AllReported keys b (r, b') =
      (r ≡ done tt)
      × ((rows : Table) × (b'.statuses ≡ b.statuses ++ rows)
          × Statuses S (OutputFailure S) keys rows (done tt))

  Statuses-OutputWorks :
      (keys : List (Task S)) (rows : Table) (e : Raised)
      → OutputWorks
      → Statuses S (OutputFailure S) keys rows (raised e)
      → ⊥
  Statuses-OutputWorks keys [] e works (_, (effect, s, o, h)) = cc (works effect s o, h)
  Statuses-OutputWorks [] (row ∷ rows) e works h = h
  Statuses-OutputWorks (key ∷ keys) (row ∷ rows) e works (_, h) =
      Statuses-OutputWorks keys rows e works h

  pub Reports-AllReported :
      (keys : List (Task S)) (b : Book S) (p : Outcome {0} Unit × Book S)
      → OutputWorks
      → Reports S (OutputFailure S) keys b p
      → AllReported keys b p
  Reports-AllReported keys b (done u, b') works (rows, h, s) = (refl, (rows, h, s))
  Reports-AllReported keys b (raised e, b') works (rows, h, s) =
      absurd (Statuses-OutputWorks keys rows e works s)

  pub check_names-known :
      (text : Str) (projects : Dict Str Project) (names : List Str)
      → check_names text (keys projects) names ≡ none
      → All (λ name. lookup name projects ≢ none) names
  unfolding check_names
  check_names-known text projects [] h = tt
  check_names-known text projects (name ∷ names) h =
      elim (Bool-cases (contains name (keys projects))) [
        | inl e ↦
            ((contains-keys name projects).0 e, check_names-known text projects names (rw e at h))
        | inr e ↦ cc (rw e at h)
      ]

  -- What a status file gets first: the names of the fields, unless it is there already
  abbrev pub top_rows : Bool → Table
  top_rows true = []
  top_rows false =
      (codes "Project" ∷ codes "Sanitizer" ∷ codes "Status" ∷ codes "Message" ∷ []) ∷ []

  -- A batch without an exception: the file has got its top, and then the rows of all tasks.
  abbrev pub Batched : List (Task S) → Bool → Book S → Outcome {0} Unit × Book S → Type 0
  Batched keys there b (r, b') =
      (r ≡ done tt)
      × ((rows : Table) × (b'.statuses ≡ (b.statuses ++ top_rows there) ++ rows)
          × Statuses S (OutputFailure S) keys rows (done tt))
