-- ===== src/Tests/Floats.antt =====
-- A number type that meets the laws asked of `float`: the integers, with a division that drops the
-- remainder.
use desan.Prelude.{
  ◌+◌, ◌/◌, ◌≡◌, ◌≢◌, Bool, true, false, Option, none, some, List, [], ◌∷◌, arith, nat_beq,
  if◌then◌else◌,
}
use desan.Prelude.Int.{ℤ, pos, negsuc, pos_part, neg_part, ◌-ℤ◌, ◌*ℤ◌, ltb_ℤ}
use desan.Py.Result.{ok, err}
use desan.Py.Number.{int, show}
use desan.Py.Float.{FloatOps, IsIeee}

abbrev same : ℤ → ℤ → Bool
same a b = nat_beq (pos_part a + neg_part b) (pos_part b + neg_part a)

abbrev quotient : ℤ → ℤ → Option ℤ
quotient a b =
    if same b (pos 0)
    then none
    else some (pos ((pos_part a + neg_part a) / (pos_part b + neg_part b)))

abbrev first : List ℤ → ℤ
first [] = pos 0
first (a ∷ as') = a

abbrev pub whole : FloatOps
whole = record {
  Float = ℤ;
  parse = λ s. elim (int s) [ ok n ↦ some n | err e ↦ none ];
  zero = pos 0;
  hundred = pos 100;
  lt = ltb_ℤ;
  eq = same;
  sub = ◌-ℤ◌;
  mul = ◌*ℤ◌;
  div = quotient;
  int_div = quotient;
  mean = first;
  show_fixed = λ k a. show (pos_part a);
}

quotient-total : (a b : ℤ) → same b (pos 0) ≡ false → (q : ℤ) × (quotient a b ≡ some q)
quotient-total a b h = (pos ((pos_part a + neg_part a) / (pos_part b + neg_part b)), rw h)

ne-same : (b : ℤ) → b ≢ pos 0 → same b (pos 0) ≡ false
ne-same (pos n) h = ground arith
ne-same (negsuc n) h = ground arith

sub-same : (a b : ℤ) → same a b ≡ false → same (a -ℤ b) (pos 0) ≡ false
unfolding ◌-ℤ◌
sub-same a b h = ground arith

positive-same : (a : ℤ) → ltb_ℤ (pos 0) a ≡ true → same a (pos 0) ≡ false
positive-same a h = ground arith

pub whole-IsIeee : IsIeee whole
whole-IsIeee = record {
  div-total = quotient-total;
  sub_nonzero = sub-same;
  pos_nonzero = positive-same;
  int_div-total = λ a b h. quotient-total a b (ne-same b h);
}
