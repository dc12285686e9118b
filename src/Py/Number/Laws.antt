-- ===== src/Py/Number/Laws.antt =====
-- A printed number is a word of digits, and `int` reads it back.
use mathlib.Core.List.{append_assoc, append-nil}
use desan.Prelude.{
  ◌≢◌, append-ne-nil, ℕ, zero, suc, ◌+◌, ◌*◌, ◌/◌, ◌%◌, ◌<◌, ◌≡◌, ◌∙◌, ap, inl, inr, Bool, true,
  false, [], ◌∷◌, ◌++◌, arith, some, ltb, ltb→lt, Bool-cases, All, All-append,
}
use desan.Prelude.Int.{pos}
use desan.Py.Result.{ok}
use desan.Py.Text.{Str, is_digit}
use desan.Py.Text.Laws.{IsWord, strip_word}
use desan.Py.Number.{digits_value, signed_value, int, show_fuel, show}

digits_value-digit :
    (d n : ℕ) (s : Str) (prev : Bool)
    → d < 10
    → digits_value ((48 + d) ∷ s) n prev ≡ digits_value s (n * 10 + d) true
unfolding digits_value
digits_value-digit d n s prev h = ground arith

digits_value-show_fuel :
    (f n : ℕ) (s : Str) (prev : Bool)
    → n < f
    → digits_value (show_fuel f n ++ s) 0 prev ≡ digits_value s n true
unfolding show_fuel
digits_value-show_fuel zero n s prev h = elim h [ ]
digits_value-show_fuel (suc f) n s prev h = elim (Bool-cases (ltb n 10)) [
  | inl one ↦ rw one (
      digits_value-digit n 0 s prev (ltb→lt n 10 one)
      ∙ ap (λ k. digits_value s k true) (omega arith))
  | inr more ↦
      rw (more, append_assoc)
        (digits_value-show_fuel f (n / 10) ((48 + n % 10) ∷ s) prev (ground arith)
          ∙ (digits_value-digit (n % 10) (n / 10) s true (omega arith)
              ∙ ap (λ k. digits_value s k true) (omega arith)))
]

abbrev pub IsDigit : ℕ → Type 0
IsDigit c = is_digit c ≡ true

show_fuel-IsDigit : (f n : ℕ) → All IsDigit (show_fuel f n)
unfolding show_fuel
show_fuel-IsDigit zero n = tt
show_fuel-IsDigit (suc f) n = elim (Bool-cases (ltb n 10)) [
  | inl one ↦ rw one (ground arith, tt)
  | inr more ↦ rw more (All-append IsDigit _ _ (show_fuel-IsDigit f (n / 10)) (ground arith, tt))
]

pub show-IsDigit : (n : ℕ) → All IsDigit (show n)
unfolding show
show-IsDigit n = show_fuel-IsDigit (suc n) n

IsDigit-IsWord : (s : Str) → All IsDigit s → IsWord s
IsDigit-IsWord [] h = tt
IsDigit-IsWord (c ∷ s) (h, hs) = (ground arith, IsDigit-IsWord s hs)

pub show-IsWord : (n : ℕ) → IsWord (show n)
show-IsWord n = IsDigit-IsWord (show n) (show-IsDigit n)

signed_value_digits :
    (c : ℕ) (s : Str) (n : ℕ)
    → IsDigit c
    → digits_value (c ∷ s) 0 false ≡ some n
    → signed_value (c ∷ s) ≡ some (pos n)
signed_value_digits c s n h e = ground arith

signed_value_of_digits :
    (s : Str) (n : ℕ)
    → All IsDigit s
    → digits_value s 0 false ≡ some n
    → signed_value s ≡ some (pos n)
unfolding digits_value
signed_value_of_digits [] n h e = cc
signed_value_of_digits (c ∷ s) n (h, hs) e = signed_value_digits c s n h e

digits_value-show : (n : ℕ) → digits_value (show n) 0 false ≡ some n
unfolding show digits_value
digits_value-show n = rw append-nil at (digits_value-show_fuel (suc n) n [] false (omega arith))

-- `int(f"{n}")` is `n`.
pub int-show : (n : ℕ) → int (show n) ≡ ok (pos n)
unfolding int
int-show n =
    rw (strip_word (show n) (show-IsWord n))
      (rw (signed_value_of_digits (show n) n (show-IsDigit n) (digits_value-show n)))

show_fuel-ne-nil : (f n : ℕ) → show_fuel (suc f) n ≢ []
unfolding show_fuel
show_fuel-ne-nil f n e = elim (Bool-cases (ltb n 10)) [
  | inl one ↦ cc (rw one at e)
  | inr more ↦ append-ne-nil (show_fuel f (n / 10)) (48 + n % 10) [] (rw more at e)
]

pub show-ne-nil : (n : ℕ) → show n ≢ []
unfolding show
show-ne-nil n = show_fuel-ne-nil n n
