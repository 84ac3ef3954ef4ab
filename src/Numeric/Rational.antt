-- ===== src/Numeric/Rational.antt =====
-- The rational numbers: exact arithmetic, with which the laws of `Order` and `Exact` are met and
-- the definitions run. A fraction is (up - down) / scale, and two are one number if they agree after
-- cross-multiplication.
pub mod Fractions
pub mod Laws
use Prim.Native.Nat.{◌^◌}
use mathlib.Core.Quot
use mathlib.Core.Quot.{Quot, Quot-set}
use pmt.Prelude.{ℕ, ◌≡◌, refl, Bool}
use pmt.Numeric.{Numeric}
use Fractions.{
  Fraction, ◌≈◌, sum_of, sum_respects, product_of, product_respects, opposite, below,
  below_respects, inverse, inverse_congr, opposite_congr, power_pos,
}

abbrev pub ℚ : Type 0
ℚ = Quot ◌≈◌

abbrev pub mk : Fraction → ℚ
mk x = Quot.mk x

pub Bool_is_set : IsSet Bool
Bool_is_set = hlevel

pub ℚ_is_set : IsSet ℚ
ℚ_is_set = Quot-set

module _ {B : Type 0} (set : IsSet B) (f : Fraction → Fraction → B)
    (congr : (x v y w : Fraction) → x ≈ v → y ≈ w → f x y ≡ f v w) where
  unfoldable pub fixed : Fraction → ℚ → B
  fixed x = Quot.lift set (f x) (λ y w q. congr x x y w refl q)

  pub fixed_congr : (x v : Fraction) → x ≈ v → (b : ℚ) → fixed x b ≡ fixed v b
  unfolding fixed
  fixed_congr x v p = Quot.ind (λ b. set _ _) (λ y. congr x v y y p refl)

  -- A function of two numbers that respects the relation.
  unfoldable pub lift₂ : ℚ → ℚ → B
  unfolding fixed
  lift₂ a b = Quot.lift set (λ x. fixed x b) (λ x v p. fixed_congr x v p b) a

unfoldable pub add : ℚ → ℚ → ℚ
unfolding lift₂
add = lift₂ ℚ_is_set (λ x y. mk (sum_of x y)) (λ x v y w p q. Quot.sound (sum_respects x v y w p q))

unfoldable pub mul : ℚ → ℚ → ℚ
unfolding lift₂
mul =
    lift₂ ℚ_is_set (λ x y. mk (product_of x y))
      (λ x v y w p q. Quot.sound (product_respects x v y w p q))

unfoldable pub neg : ℚ → ℚ
neg = Quot.lift ℚ_is_set (λ x. mk (opposite x)) (λ x v p. Quot.sound (opposite_congr x v p))

unfoldable pub inv : ℚ → ℚ
inv = Quot.lift ℚ_is_set (λ x. mk (inverse x)) (λ x v p. Quot.sound (inverse_congr x v p))

unfoldable pub lt : ℚ → ℚ → Bool
unfolding lift₂
lt = lift₂ Bool_is_set below below_respects

-- `n / 10 ^ k`
abbrev pub decimal : ℕ → ℕ → Fraction
decimal n k = record { up = n; down = 0; scale = 10 ^ k; scale_pos = power_pos k }

instance abbrev pub rational : Numeric ℚ
rational = record {
  lit = λ n k. mk (decimal n k);
  plus = add;
  minus = λ a b. add a (neg b);
  times = mul;
  over = λ a b. mul a (inv b);
  negate = neg;
  less = lt;
}
