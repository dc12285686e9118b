-- ===== src/Py/Result.antt =====
-- Exceptions as values.
use desan.Prelude.{◌≡◌, refl, ◌⊎◌, inl, inr}

-- The exceptions that the modelled code can meet.
pub data PyError : Type 0 where
  value_error index_error type_error key_error zero_division_error is_a_directory_error
        attribute_error :
      PyError

pub data Result {ℓ} (A : Type ℓ) : Type ℓ where
  ok : A → Result A
  err : PyError → Result A

infixl 5 ◌>>=◌
-- An exception ends what follows.
abbrev pub ◌>>=◌ {ℓ κ} : {A : Type ℓ} {B : Type κ} → Result A → (A → Result B) → Result B
err raised >>= next = err raised
ok value >>= next = next value

-- `try: x = m except ValueError: x = default`. Other exceptions pass through.
abbrev pub except_value_error {ℓ} : {A : Type ℓ} → A → Result A → Result A
except_value_error default (ok a) = ok a
except_value_error default (err PyError.value_error) = ok default
except_value_error default (err e) = err e

pub Result-cases {ℓ} :
    {A : Type ℓ} (m : Result A) → ((a : A) × (m ≡ ok a)) ⊎ ((e : PyError) × (m ≡ err e))
Result-cases (ok a) = inl (a, refl)
Result-cases (err e) = inr (e, refl)

-- A chain that has returned is a first step that has returned, and the rest from its value.
pub bind-eq-ok {ℓ κ} :
    {A : Type ℓ} {B : Type κ} (m : Result A) (f : A → Result B) (b : B)
    → (m >>= f) ≡ ok b
    → (a : A) × (m ≡ ok a) × (f a ≡ ok b)
bind-eq-ok (err e) f b h = cc
bind-eq-ok (ok a) f b h = (a, refl, h)

pub ok-injective {ℓ} : {A : Type ℓ} (a b : A) → ok a ≡ ok b → a ≡ b
ok-injective a b h = cc
