-- ===== src/Numeric/Rational/Laws.antt =====
-- The rational numbers meet the laws of the order and of exact arithmetic.
pub mod Equations
pub mod Order
pub mod Division
use Prim.Native.Nat.{suc, ◌+◌, ◌-◌, ◌*◌, ◌^◌, ◌<◌, ◌≤◌}
use mathlib.Core.Path.{subst}
use mathlib.Core.Quot
use native.Mathlib.Nat.{
  mul-le-mul_right, mul-le-mul_left, mul-lt-mul_of_pos_left, le_of_mul-le-mul_right, pow-suc,
  mul-lt-mul_of_pos_right,
}
use pmt.Prelude.{ℕ, ◌≡◌, refl, ap, sym, ◌∙◌, true, false, arith, ltb, Bool-cases, inl, inr}
use pmt.Numeric.Order.{IsOrdered}
use pmt.Numeric.Exact.{IsExact}
use pmt.Numeric.Rational.{ℚ, mk, add, mul, neg, inv, lt, rational, decimal, ℚ_is_set, Bool_is_set}
use pmt.Numeric.Rational.Fractions.{Fraction, ◌≈◌, product_of, inverse, power_pos}
use pmt.Numeric.Rational.Laws.Equations.{
  add_comm, add_assoc, zero-add, add-neg_self, neg-neg, mul_comm, mul_assoc, mul-add, one-mul,
}
use pmt.Numeric.Rational.Laws.Order.{
  zero-lt-one, lt_asymm, le_trans, le_antisymm, lit_mono, lit_scale, zero_ℚ, neg-lt_of_pos,
  sub_nonneg, sub-le, add_nonneg, add_pos, mul_nonneg, mul_pos, mul_mono_left,
}
use pmt.Numeric.Rational.Laws.Division.{
  inv_pos, div-mul_cancel, div-le_of_lt-mul, sub_anti, div_mono, div-le-one, lit_pos,
}

pub rational-IsOrdered : IsOrdered ℚ
rational-IsOrdered = record {
  lt_asymm = lt_asymm;
  le_trans = le_trans;
  le_antisymm = le_antisymm;
  zero-lt-one = zero-lt-one;
  lit_mono = lit_mono;
  lit_pos = lit_pos;
  lit_scale = lit_scale;
  add-negate = λ a b. refl;
  negate-negate = neg-neg;
  negate-lt_of_pos = neg-lt_of_pos;
  sub_nonneg = λ a b. sub_nonneg a b;
  sub-le = sub-le;
  add_pos = add_pos;
  mul_pos = mul_pos;
  add_nonneg = add_nonneg;
  mul_nonneg = mul_nonneg;
  mul_mono_left = mul_mono_left;
  mul_comm = mul_comm;
  mul-one = λ a. mul_comm a _ ∙ one-mul a;
  sub_anti = sub_anti;
  div_mono = div_mono;
  div-le-one = div-le-one;
  div_nonneg = λ a b h k. mul_nonneg a (inv b) h (lt_asymm zero_ℚ (inv b) (inv_pos b k));
  div-le_of_lt-mul = div-le_of_lt-mul;
}

pub rational-IsExact : IsExact ℚ
rational-IsExact = record {
  add_comm = add_comm;
  add_assoc = add_assoc;
  nought-add = zero-add;
  sub-eq-add-negate = λ a b. refl;
  add-negate_self = add-neg_self;
  mul_comm = mul_comm;
  mul_assoc = mul_assoc;
  mul-add = mul-add;
  one-mul = one-mul;
  div-mul_cancel = div-mul_cancel;
}
