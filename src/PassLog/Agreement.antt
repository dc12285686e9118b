-- ===== src/PassLog/Agreement.antt =====
-- The two versions of `parse_pass_log` agree, but where the strict one raises a `ValueError`.
use desan.Prelude.{
  ◌≡◌, refl, ◌⊎◌, inl, inr, Bool, true, false, ◌&&◌, not, Option, none, some, List, [], ◌∷◌,
  if◌then◌else◌,
}
use desan.Prelude.Int.{pos}
use desan.Py.Result.{Result, ok, err, ◌>>=◌, PyError, value_error, except_value_error}
use desan.Py.Text.{Str, codes, starts_with, strip, truthy}
use desan.Py.File.{FileSystem, open_lines}
use desan.PassLog.{
  Totals, is_removed_line, PassState, start, strict_number, tolerant_number, pass_step, pass_loop,
  parse_pass_lines, strict_pass_log, tolerant_pass_log,
}

-- A result that is the strict one, unless that is a `ValueError`.
abbrev Agrees {ℓ} : {A : Type ℓ} → Result A → Result A → Type ℓ
Agrees tolerant strict = (tolerant ≡ strict) ⊎ (strict ≡ err value_error)

except-Agrees {ℓ} :
    {A : Type ℓ} (default : A) (m : Result A) → Agrees (except_value_error default m) m
except-Agrees default (ok a) = inl refl
except-Agrees default (err PyError.value_error) = inr refl
except-Agrees default (err PyError.index_error) = inl refl
except-Agrees default (err e) = inl refl

bind-Agrees {ℓ κ} :
    {A : Type ℓ} {B : Type κ} (m n : Result A) (f g : A → Result B)
    → Agrees m n
    → ((a : A) → Agrees (f a) (g a))
    → Agrees (m >>= f) (n >>= g)
bind-Agrees m (ok a) f g (inl e) h = rw e (h a)
bind-Agrees m (err e') f g (inl e) h = rw e (inl refl)
bind-Agrees m n f g (inr e) h = rw e (inr refl)

if-Agrees {ℓ} :
    {A : Type ℓ} (b : Bool) (m m' n n' : Result A)
    → Agrees m m'
    → Agrees n n'
    → Agrees (if b then m else n) (if b then m' else n')
if-Agrees true m m' n n' h k = h
if-Agrees false m m' n n' h k = k

number-Agrees : (line : Str) → Agrees (tolerant_number line) (strict_number line)
unfolding tolerant_number
number-Agrees line = except-Agrees (pos 0) (strict_number line)

module _ (core_prefixes : List Str) where
  step-Agrees :
      (st : PassState) (line : Str)
      → Agrees
          (pass_step tolerant_number core_prefixes st line)
          (pass_step strict_number core_prefixes st line)
  unfolding pass_step
  step-Agrees st line =
      if-Agrees (starts_with line (codes "Total Checks:") && not st.saw_total) _ _ _ _
        (bind-Agrees _ _ _ _ (number-Agrees line) (λ n. inl refl))
        (if-Agrees (starts_with line (codes "Check Type:")) _ _ _ _ (inl refl) (
          if-Agrees (starts_with line (codes "Count:") && truthy st.current_type) _ _ _ _
            (bind-Agrees _ _ _ _ (number-Agrees line) (λ n. inl refl))
            (if-Agrees (is_removed_line line) _ _ (ok st) (ok st)
              (bind-Agrees _ _ (λ n. ok (record st { removed = n }))
                (λ n. ok (record st { removed = n })) (number-Agrees line) (λ n. inl refl))
              (inl refl))))

  loop-Agrees :
      (st : PassState) (lines : List Str)
      → Agrees
          (pass_loop tolerant_number core_prefixes st lines)
          (pass_loop strict_number core_prefixes st lines)
  unfolding pass_loop
  loop-Agrees st [] = inl refl
  loop-Agrees st (line ∷ lines) =
      bind-Agrees _ _ _ _ (step-Agrees st (strip line)) (λ st'. loop-Agrees st' lines)

  -- For every file system and path the two versions give the same totals or the same exception,
  -- unless the strict version raises a `ValueError`.
  pub tolerant_pass_log-strict_pass_log :
      (fs : FileSystem) (path : Option Str)
      → (tolerant_pass_log core_prefixes fs path ≡ strict_pass_log core_prefixes fs path)
        ⊎ (strict_pass_log core_prefixes fs path ≡ err value_error)
  unfolding tolerant_pass_log strict_pass_log
  tolerant_pass_log-strict_pass_log fs path =
      bind-Agrees (open_lines fs path) (open_lines fs path) _ _ (inl refl) λ log. agree log
    where
      agree :
          (log : Option (List Str))
          → Agrees {A = Totals}
              (elim log [
                | none ↦ ok (pos 0, pos 0, pos 0)
                | some lines ↦ parse_pass_lines tolerant_number core_prefixes lines
              ])
              (elim log [
                | none ↦ ok (pos 0, pos 0, pos 0)
                | some lines ↦ parse_pass_lines strict_number core_prefixes lines
              ])
      agree none = inl refl
      agree (some lines) = bind-Agrees _ _ _ _ (loop-Agrees start lines) (λ st. inl refl)
