-- ===== src/Py/Float.antt =====
-- Python's `float`, which the language leaves to the machine: the type and the operations are a
-- parameter of the model, and the laws are what IEEE 754 says of them.
use desan.Prelude.{ℕ, ◌≡◌, ◌≢◌, Bool, true, false, Option, some, List}
use desan.Prelude.Int.{ℤ, pos}
use desan.Py.Text.{Str}

pub record FloatOps : Type 1 where
  pub Float : Type 0
  -- `float(text)`, with `none` for a `ValueError`
  pub parse : Str → Option Float
  pub zero : Float
  pub hundred : Float
  pub lt : Float → Float → Bool
  pub eq : Float → Float → Bool
  pub sub : Float → Float → Float
  pub mul : Float → Float → Float
  -- `a / b` of two floats and of two integers, with `none` for a `ZeroDivisionError`
  pub div : Float → Float → Option Float
  pub int_div : ℤ → ℤ → Option Float
  -- `statistics.mean` of a list that is not empty
  pub mean : List Float → Float
  -- `f"{x:.kf}"`
  pub show_fixed : ℕ → Float → Str

-- Division raises at a divisor that equals 0 only. Two floats that differ have a difference other
-- than 0, by gradual underflow, also where one is infinite or no number. The quotient of two integers
-- is in the range of a float, as that of any counts below 2^1023 is: Python has an `OverflowError`
-- beyond it.
pub record IsIeee (F : FloatOps) : Type 0 where
  pub div-total : (a b : F.Float) → F.eq b F.zero ≡ false → (q : F.Float) × (F.div a b ≡ some q)
  pub sub_nonzero : (a b : F.Float) → F.eq a b ≡ false → F.eq (F.sub a b) F.zero ≡ false
  pub pos_nonzero : (a : F.Float) → F.lt F.zero a ≡ true → F.eq a F.zero ≡ false
  pub int_div-total : (a b : ℤ) → b ≢ pos 0 → (q : F.Float) × (F.int_div a b ≡ some q)
