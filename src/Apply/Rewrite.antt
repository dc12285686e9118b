-- ===== src/Apply/Rewrite.antt =====
-- scripts/apply_sanrazor_detected_disabled_counts.py: what a row holds after its assignments.
use desan.Prelude.{
  ◌≡◌, refl, false, Option, none, some, [], ◌∷◌, Dict, lookup, keys, contains, nat_eq, list_eq, Key,
  ◌==◌, Bool-cases, inl, inr,
}
use desan.Py.Result.{Result}

-- What the assignments say of a field, or else what the row says.
abbrev pub overlay {ℓ} : {A : Type ℓ} → Option A → Option A → Option A
overlay none old = old
overlay (some new) old = some new

module _ {ℓ κ} {K : Type ℓ} {V : Type κ} ⦃e : Key K⦄ where
  pub absent-lookup :
      (name : K) (d : Dict K V) → contains name (keys d) ≡ false → lookup name d ≡ none
  unfolding contains keys lookup
  absent-lookup name [] h = refl
  absent-lookup name ((k, v) ∷ d) h = elim (Bool-cases (k == name)) [
    | inl e ↦ cc (rw e at h)
    | inr e ↦ rw e (absent-lookup name d (rw e at h))
  ]
