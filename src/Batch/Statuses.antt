-- ===== src/Batch/Statuses.antt =====
-- The status file of a batch: which rows are written, whatever happens to a project.
use desan.Prelude.{All, ◌≡◌, ◌≢◌, refl, sym, ap, ◌∙◌, List, [], ◌∷◌, ◌++◌, nat_eq, list_eq}
use mathlib.Core.List.{append-nil, append_assoc}
use desan.Py.Text.{Str, codes}
use desan.Py.Table.{Table}
use desan.Py.Float.{FloatOps}
use desan.Driver.{Action, Outcome, done, raised, Raised, after, for_each, System, World, message}
use desan.Batch.{Book, guarded, status_row}

module _ {F : FloatOps} (S : System F) where
  -- The key of a row, and the program whose end it tells
  abbrev pub Task : Type 0
  Task = List Str × Action (World S)

  -- The status row after an end of a program: a success without a message, or a failure with its
  -- exception's text.
  abbrev pub Tells : List Str → Outcome {0} Unit → List Str → Type 0
  Tells key (done u) row = row ≡ key ++ (codes "S" ∷ [] ∷ [])
  Tells key (raised e) row = row ≡ key ++ (codes "FAIL" ∷ message e ∷ [])

  -- The program of a task has been run in some world, and the row tells how it has ended.
  abbrev pub StatusOf : Task → List Str → Type 0
  StatusOf (key, body) row = (w : World S) × Tells key (body w).0 row

  -- Rows for some tasks in order: for all of them after no exception, and for some of them otherwise,
  -- where the exception is one of those that count.
  module _ (Counts : Raised → Type 0) where
    abbrev pub Statuses : List Task → Table → Outcome {0} Unit → Type 0
    Statuses keys [] (done u) = keys ≡ []
    Statuses keys [] (raised e) = (keys ≢ []) × Counts e
    Statuses [] (row ∷ rows) r = ⊥
    Statuses (key ∷ keys) (row ∷ rows) r = StatusOf key row × Statuses keys rows r

    Statuses-raised :
        (keys more : List Task) (rows : Table) (e : Raised)
        → Statuses keys rows (raised e)
        → Statuses (keys ++ more) rows (raised e)
    Statuses-raised [] more [] e (h, c) = absurd (h refl)
    Statuses-raised (key ∷ keys) more [] e (h, c) = ((λ k. cc k), c)
    Statuses-raised [] more (row ∷ rows) e h = elim h [ ]
    Statuses-raised (key ∷ keys) more (row ∷ rows) e (s, h) =
        (s, Statuses-raised keys more rows e h)

    Statuses-append :
        (keys more : List Task) (rows rows' : Table) (r : Outcome {0} Unit)
        → Statuses keys rows (done tt)
        → Statuses more rows' r
        → Statuses (keys ++ more) (rows ++ rows') r
    Statuses-append [] more [] rows' r h h' = h'
    Statuses-append (key ∷ keys) more [] rows' r h h' = cc h
    Statuses-append [] more (row ∷ rows) rows' r h h' = elim h [ ]
    Statuses-append (key ∷ keys) more (row ∷ rows) rows' r (s, h) h' =
        (s, Statuses-append keys more rows rows' r h h')

abbrev pub flat {ℓ κ} : {A : Type ℓ} {B : Type κ} → (A → List B) → List A → List B
flat keys [] = []
flat keys (x ∷ xs) = keys x ++ flat keys xs

module _ {F : FloatOps} (S : System F) (Counts : Raised → Type 0) where
  -- What a program writes to the status file
  abbrev pub Reports : List (Task S) → Book S → Outcome {0} Unit × Book S → Type 0
  Reports keys b (r, b') =
      (rows : Table) × (b'.statuses ≡ b.statuses ++ rows) × Statuses S Counts keys rows r

  Reports-join :
      (keys more : List (Task S)) (b b' : Book S) (rows : Table) (p : Outcome {0} Unit × Book S)
      → b'.statuses ≡ b.statuses ++ rows
      → Statuses S Counts keys rows (done tt)
      → Reports more b' p
      → Reports (keys ++ more) b p
  Reports-join keys more b b' rows (r, b'') h s (rows', h', s') = (
    rows ++ rows',
    h' ∙ ap (λ t. t ++ rows') h ∙ append_assoc b.statuses rows rows',
    Statuses-append S Counts keys more rows rows' r s s',
  )

  Reports-after :
      (keys more : List (Task S)) (next : Action (Book S)) (b : Book S)
      (p : Outcome {0} Unit × Book S)
      → Reports keys b p
      → ((b' : Book S) → Reports more b' (next b'))
      → Reports (keys ++ more) b (after (λ u. next) p)
  Reports-after keys more next b (raised e, b') (rows, h, s) hn =
      (rows, h, Statuses-raised S Counts keys more rows e s)
  Reports-after keys more next b (done u, b') (rows, h, s) hn =
      Reports-join keys more b b' rows (next b') h s (hn b')

  pub for_each-Reports {ℓ} :
      {A : Type ℓ} (f : A → Action (Book S)) (keys : A → List (Task S)) (xs : List A)
      → All (λ x. (b : Book S) → Reports (keys x) b (f x b)) xs
      → (b : Book S) → Reports (flat keys xs) b (for_each f xs b)
  unfolding for_each
  for_each-Reports f keys [] h b = ([], sym (append-nil b.statuses), refl)
  for_each-Reports f keys (x ∷ xs) (h, hs) b =
      Reports-after (keys x) (flat keys xs) (for_each f xs) b (f x b) (h b)
        (for_each-Reports f keys xs hs)

  -- A step before the row, of which the exceptions count
  pub on_world-Reports :
      (key : Task S) (next : Action (Book S)) (b : Book S) (r : Outcome {0} Unit) (w : World S)
      → ((e : Raised) → r ≡ raised e → Counts e)
      → ((b' : Book S) → Reports (key ∷ []) b' (next b'))
      → Reports (key ∷ []) b (after (λ u. next) (r, record b { world = w }))
  on_world-Reports key next b (done u) w h hn = hn (record b { world = w })
  on_world-Reports key next b (raised e) w h hn =
      ([], sym (append-nil b.statuses), ((λ k. cc k), h e refl))

  status_row-Tells : (key : List Str) (r : Outcome {0} Unit) → Tells S key r (status_row S key r)
  status_row-Tells key (done u) = refl
  status_row-Tells key (raised e) = refl

  pub guarded-Reports :
      (key : List Str) (body : Action (World S)) (b : Book S)
      → Reports ((key, body) ∷ []) b (guarded S key body b)
  unfolding guarded
  guarded-Reports key body b = (
    status_row S key (body b.world).0 ∷ [],
    refl,
    ((b.world, status_row-Tells key (body b.world).0), refl),
  )
