-- ===== src/Driver/Environment.antt =====
-- `base_env`: what a build finds in its environment.
use desan.Prelude.{
  ◌≡◌, refl, sym, ◌∙◌, Bool, Bool-cases, inl, inr, some, List, [], ◌∷◌, lookup, insert, NodupKeys,
  lookup-insert, keys, contains, nat_eq, list_eq, list_beq, Key, ◌==◌, if◌then◌else◌,
}
use desan.Prelude.Int.{ℤ}
use desan.Py.Text.{Str, codes}
use desan.Apply.Rewrite.{overlay, absent-lookup}
use desan.Driver.{Env, update_env}
use desan.Driver.Build.{base_settings, base_env}

lookup-update_env :
    (values : List (Str × Str)) (env : Env) (name : Str)
    → NodupKeys values
    → lookup name (update_env values env) ≡ overlay (lookup name values) (lookup name env)
unfolding update_env lookup
lookup-update_env [] env name u = refl
lookup-update_env ((k, v) ∷ values) env name (fresh, u) =
    lookup-update_env values (insert k v env) name u ∙ elim (Bool-cases (k == name)) [
      | inl e ↦ rw (
        lookup-insert,
        e,
        absent-lookup name values (rw (sym ((Key.same_iff list_eq k name).0 e)) fresh),
      )
      | inr e ↦ rw (lookup-insert, e)
    ]

base_settings-NodupKeys :
    (env : Env) (sanitizer : Str) (disable_pass : Bool) (out_dir name : Str) (jobs : ℤ)
    → NodupKeys (base_settings env sanitizer disable_pass out_dir name jobs)
unfolding base_settings contains keys list_beq
base_settings-NodupKeys env sanitizer disable_pass out_dir name jobs = (
  refl,
  (
    refl,
    (
      refl,
      (
        refl,
        (
          refl,
          (
            refl,
            (
              refl,
              (
                refl,
                (
                  refl,
                  (
                    refl,
                    (
                      refl,
                      (
                        refl,
                        (
                          refl,
                          (
                            refl,
                            (
                              refl,
                              (
                                refl,
                                (
                                  refl,
                                  (
                                    refl,
                                    (
                                      refl,
                                      (refl, (refl, (refl, (refl, (refl, (refl, (refl, tt))))))),
                                    ),
                                  ),
                                ),
                              ),
                            ),
                          ),
                        ),
                      ),
                    ),
                  ),
                ),
              ),
            ),
          ),
        ),
      ),
    ),
  ),
)

-- A build finds in its environment what base_env assigns, and all else as it was; among it are the
-- sanitizer, the directory of its output, and whether the pass is left out, whatever the environment
-- was before.
pub lookup-base_env :
    (env : Env) (sanitizer : Str) (disable_pass : Bool) (out_dir name : Str) (jobs : ℤ)
    → let built = base_env env sanitizer disable_pass out_dir name jobs in
      ((variable : Str)
        → lookup variable built
          ≡ overlay
              (lookup variable (base_settings env sanitizer disable_pass out_dir name jobs))
              (lookup variable env))
      × (lookup (codes "DESAN_SPEC_SANITIZER") built ≡ some sanitizer)
      × (lookup (codes "DESAN_OUT_DIR") built ≡ some out_dir)
      × (lookup (codes "DESAN_SPEC_DISABLE_PASS") built
          ≡ some (if disable_pass then codes "1" else codes "0"))
unfolding base_env base_settings lookup list_beq
lookup-base_env env sanitizer disable_pass out_dir name jobs =
    let values = base_settings env sanitizer disable_pass out_dir name jobs in
    let all : (variable : Str) → _ = λ variable.
      lookup-update_env values env variable
        (base_settings-NodupKeys env sanitizer disable_pass out_dir name jobs) in
    (
      all,
      all (codes "DESAN_SPEC_SANITIZER"),
      all (codes "DESAN_OUT_DIR"),
      all (codes "DESAN_SPEC_DISABLE_PASS"),
    )
