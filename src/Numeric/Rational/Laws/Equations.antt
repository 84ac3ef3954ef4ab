-- ===== src/Numeric/Rational/Laws/Equations.antt =====
-- The equations of addition and multiplication of rational numbers.
use mathlib.Core.Quot
use pmt.Prelude.{◌≡◌, refl, arith}
use pmt.Numeric.Rational.{ℚ, mk, add, mul, neg, rational, decimal, ℚ_is_set}
use pmt.Numeric.Rational.Fractions.{Fraction}

pub ind₂ :
    {P : ℚ → ℚ → Type 0}
    → ((a b : ℚ) → IsProp (P a b))
    → ((x y : Fraction) → P (mk x) (mk y))
    → (a b : ℚ) → P a b
ind₂ prop h = Quot.ind (λ a. hlevel prop) (λ x. Quot.ind (λ b. prop (mk x) b) (λ y. h x y))

pub ind₃ :
    {P : ℚ → ℚ → ℚ → Type 0}
    → ((a b c : ℚ) → IsProp (P a b c))
    → ((x y z : Fraction) → P (mk x) (mk y) (mk z))
    → (a b c : ℚ) → P a b c
ind₃ prop h = Quot.ind (λ a. hlevel prop) (λ x. ind₂ (λ b c. prop (mk x) b c) (λ y z. h x y z))

-- The equations.
pub add_comm : (a b : ℚ) → add a b ≡ add b a
unfolding add
add_comm = ind₂ (λ a b. ℚ_is_set _ _) (λ x y. Quot.sound (omega arith))

pub add_assoc : (a b c : ℚ) → add (add a b) c ≡ add a (add b c)
unfolding add
add_assoc = ind₃ (λ a b c. ℚ_is_set _ _) (λ x y z. Quot.sound (omega arith))

pub zero-add : (a : ℚ) → add (mk (decimal 0 0)) a ≡ a
unfolding add
zero-add = Quot.ind (λ a. ℚ_is_set _ _) (λ x. Quot.sound (omega arith))

pub add-neg_self : (a : ℚ) → add a (neg a) ≡ mk (decimal 0 0)
unfolding add neg
add-neg_self = Quot.ind (λ a. ℚ_is_set _ _) (λ x. Quot.sound (omega arith))

pub neg-neg : (a : ℚ) → neg (neg a) ≡ a
unfolding neg
neg-neg = Quot.ind (λ a. ℚ_is_set _ _) (λ x. refl)

pub mul_comm : (a b : ℚ) → mul a b ≡ mul b a
unfolding mul
mul_comm = ind₂ (λ a b. ℚ_is_set _ _) (λ x y. Quot.sound (omega arith))

pub mul_assoc : (a b c : ℚ) → mul (mul a b) c ≡ mul a (mul b c)
unfolding mul
mul_assoc = ind₃ (λ a b c. ℚ_is_set _ _) (λ x y z. Quot.sound (omega arith))

pub mul-add : (a b c : ℚ) → mul a (add b c) ≡ add (mul a b) (mul a c)
unfolding add mul
mul-add = ind₃ (λ a b c. ℚ_is_set _ _) (λ x y z. Quot.sound (omega arith))

pub one-mul : (a : ℚ) → mul (mk (decimal 1 0)) a ≡ a
unfolding mul
one-mul = Quot.ind (λ a. ℚ_is_set _ _) (λ x. Quot.sound (omega arith))
