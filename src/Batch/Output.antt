-- ===== src/Batch/Output.antt =====
-- The status file of a batch: rows for the projects and sanitizers in order, up to an exception of a
-- change of the output itself.
use desan.Driver.{
  append_to, make_dirs, remove_old, Project, Args, out_base, Io, ◌>>=◌, when, Outcome, done, raised,
  Raised, after, Effect, remove_tree, unlink, create, System, World, ask, perform, or_key_error,
  Action,
}
use mathlib.Core.List.{append_assoc}
use desan.Batch.Statuses.{Task, flat}
use desan.Prelude.{
  ap, ◌∙◌, inl, inr, lookup, Dict, All, nat_eq, list_eq, [], ◌∷◌, List, Bool-cases, ◌≡◌, ◌++◌,
}
use desan.Batch.{remove_old, prepare_output, run_body, out_root_of}
use desan.Py.Text.{Str}
use desan.Py.Float.{FloatOps}

-- A path below the directory of the output, or the directory itself
abbrev pub Under : Str → Type 0
Under path = (rest : Str) × (path ≡ out_base ++ rest)

-- What the batch itself changes: the output, and its own status file
abbrev pub IsOutput : Effect → Type 0
IsOutput (make_dirs path) = Under path
IsOutput (remove_tree path) = Under path
IsOutput (unlink path) = Under path
IsOutput (create path) = Under path
IsOutput (append_to path) = Unit
IsOutput _ = ⊥

Under-append : (path rest suffix : Str) → path ≡ out_base ++ rest → Under (path ++ suffix)
Under-append path rest suffix h =
    (rest ++ suffix, ap (λ p. p ++ suffix) h ∙ append_assoc out_base rest suffix)

module _ {F : FloatOps} (S : System F) where
  -- An exception of a change of the output
  abbrev pub OutputFailure : Raised → Type 0
  OutputFailure e =
      (effect : Effect) × (s : S.State) × IsOutput effect × ((S.perform effect s).0 ≡ raised e)

  abbrev pub Fails {ℓ} : {A : Type ℓ} → Io (World S) A → Type ℓ
  Fails m = (w : World S) (e : Raised) → (m w).0 ≡ raised e → OutputFailure e

  after-Fails {ℓ κ} :
      {A : Type ℓ} {B : Type κ} (next : A → Io (World S) B) (p : Outcome A × World S)
      → ((e : Raised) → p.0 ≡ raised e → OutputFailure e)
      → ((a : A) → Fails (next a))
      → (e : Raised) → (after next p).0 ≡ raised e
      → OutputFailure e
  after-Fails next (done a, w) h hn e k = hn a w e k
  after-Fails next (raised e', w) h hn e k = h e (cc k)

  bind-Fails {ℓ κ} :
      {A : Type ℓ} {B : Type κ} (m : Io (World S) A) (next : A → Io (World S) B)
      → Fails m
      → ((a : A) → Fails (next a))
      → Fails (m >>= next)
  bind-Fails m next hm hn w = after-Fails next (m w) (hm w) hn

  perform-Fails : (effect : Effect) → IsOutput effect → Fails (perform S effect)
  perform-Fails effect h w e k = (effect, w.system, h, k)

  if_there-Fails :
      (path : Str) (effect : Effect)
      → IsOutput effect
      → Fails (ask S (S.exists path) >>= λ there. when there (perform S effect))
  if_there-Fails path effect h w e k = elim (Bool-cases (S.exists path w.system)) [
    | inl t ↦ perform-Fails effect h w e (rw t at k)
    | inr t ↦ cc (rw t at k)
  ]

  pub prepare_output-Fails :
      (out_root log_path : Str)
      → Under out_root
      → Under log_path
      → Fails (prepare_output S out_root log_path)
  unfolding prepare_output remove_old
  prepare_output-Fails out_root log_path (rest, h) under_log =
      bind-Fails _ _ (if_there-Fails out_root (remove_tree out_root) (rest, h)) (λ u.
        bind-Fails _ _ (if_there-Fails _ (unlink _) (Under-append out_root rest _ h)) (λ u.
          bind-Fails _ _ (if_there-Fails _ (unlink _) (Under-append out_root rest _ h)) (λ u.
            bind-Fails _ _ (perform-Fails (make_dirs out_root) (rest, h))
              (λ u. perform-Fails (create log_path) under_log))))

  -- The run of a project with a sanitizer, inside of the part that catches exceptions
  abbrev pub body_of : Dict Str Project → Args → Str → Str → Action (World S)
  body_of projects args name sanitizer = or_key_error name (lookup name projects) >>= λ project.
      run_body S name project sanitizer (out_root_of name sanitizer) args

  abbrev pub task : Dict Str Project → Args → Str → Str → Task S
  task projects args name sanitizer = (name ∷ sanitizer ∷ [], body_of projects args name sanitizer)

  -- The tasks of a batch, in order
  abbrev pub tasks : Dict Str Project → Args → List Str → List Str → List (Task S)
  tasks projects args names chosen =
      flat (λ name. flat (λ sanitizer. task projects args name sanitizer ∷ []) chosen) names

  pub All-map {ℓ κ ν} :
      {A : Type ℓ} (P : A → Type κ) (Q : A → Type ν) (xs : List A)
      → ((x : A) → P x → Q x)
      → All P xs
      → All Q xs
  All-map P Q [] h a = tt
  All-map P Q (x ∷ xs) h (a, as') = (h x a, All-map P Q xs h as')
