-- ===== src/Py/Number.antt =====
-- `int(text)` and the printing of a number by an f-string.
pub mod Laws
use desan.Prelude.{
  ℕ, zero, suc, ◌+◌, ◌-◌, ◌*◌, ◌/◌, ◌%◌, ◌≡◌, refl, Bool, true, false, ◌&&◌, ◌||◌, Option, none,
  some, [], ◌∷◌, ◌++◌, ltb, ◌==◌, nat_eq, if◌then◌else◌,
}
use desan.Prelude.Int.{ℤ, pos, negsuc}
use mathlib.Core.Option
use desan.Py.Result.{Result, ok, err, PyError}
use desan.Py.Text.{Str, codes, is_digit, strip}

-- The digits of a literal. A single `_` may stand between two digits; `prev` says whether the
-- character before was a digit.
unfoldable pub digits_value : Str → ℕ → Bool → Option ℕ
digits_value [] n prev = if prev then some n else none
digits_value (c ∷ s) n prev =
    if is_digit c || (c == b'_' && prev)
    then digits_value s (if is_digit c then n * 10 + (c - 48) else n) (is_digit c)
    else none

abbrev pub neg_ℕ : ℕ → ℤ
neg_ℕ zero = pos zero
neg_ℕ (suc n) = negsuc n

abbrev pub signed_value : Str → Option ℤ
signed_value [] = none
signed_value (c ∷ s) =
    if c == b'-'
    then Option.map neg_ℕ (digits_value s 0 false)
    else if c == b'+'
    then Option.map pos (digits_value s 0 false)
    else Option.map pos (digits_value (c ∷ s) 0 false)

abbrev pub value_or_raise {ℓ} : {A : Type ℓ} → Option A → Result A
value_or_raise none = err PyError.value_error
value_or_raise (some a) = ok a

-- `int(text)`
unfoldable pub int : Str → Result ℤ
unfolding strip digits_value
int s = value_or_raise (signed_value (strip s))

-- The decimal digits of a number, on fuel.
unfoldable pub show_fuel : ℕ → ℕ → Str
show_fuel zero n = []
show_fuel (suc f) n =
    let high = show_fuel f (n / 10) in
    if ltb n 10 then (48 + n) ∷ [] else high ++ ((48 + n % 10) ∷ [])

-- `f"{n}"`
unfoldable pub show : ℕ → Str
unfolding show_fuel
show n = show_fuel (suc n) n

show_test : show 90210 ≡ codes "90210"
unfolding show
show_test = refl

int_tests :
    (int (codes " 1_234\n") ≡ ok (pos 1234))
    × (int (codes "-7") ≡ ok (negsuc 6))
    × (int (codes "1__2") ≡ err PyError.value_error)
    × (int (codes "12.5") ≡ err PyError.value_error)
    × (int [] ≡ err PyError.value_error)
unfolding int
int_tests = (refl, refl, refl, refl, refl)
