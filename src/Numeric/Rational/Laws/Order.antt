-- ===== src/Numeric/Rational/Laws/Order.antt =====
-- The order of the rational numbers, and how addition and multiplication respect it.
use Prim.Native.Nat.{suc, ◌+◌, ◌-◌, ◌*◌, ◌^◌, ◌<◌, ◌≤◌}
use mathlib.Core.Quot
use native.Mathlib.Nat.{
  mul-le-mul_right, mul-le-mul_left, mul-lt-mul_of_pos_left, le_of_mul-le-mul_right, pow-suc,
  mul-lt-mul_of_pos_right,
}
use pmt.Prelude.{ℕ, ◌≡◌, refl, ap, true, false, arith, ltb}
use pmt.Numeric.Rational.{ℚ, mk, add, mul, neg, lt, rational, decimal, ℚ_is_set, Bool_is_set}
use pmt.Numeric.Rational.Laws.Equations.{ind₂, ind₃}

-- Tests as orders of natural numbers.
pub le_of_ltb : (a b : ℕ) → ltb a b ≡ false → b ≤ a
le_of_ltb a b h = ground arith

pub ltb_of_le : (a b : ℕ) → b ≤ a → ltb a b ≡ false
ltb_of_le a b h = ground arith

pub lt_of_ltb : (a b : ℕ) → ltb a b ≡ true → a < b
lt_of_ltb a b h = ground arith

pub ltb_of_lt : (a b : ℕ) → a < b → ltb a b ≡ true
ltb_of_lt a b h = ground arith

ruleset tests = (arith, le_of_ltb, ltb_of_le, lt_of_ltb, ltb_of_lt)

-- The order.
pub zero-lt-one : lt (mk (decimal 0 0)) (mk (decimal 1 0)) ≡ true
unfolding lt
zero-lt-one = refl

pub lt_asymm : (a b : ℚ) → lt a b ≡ true → lt b a ≡ false
unfolding lt
lt_asymm =
    ind₂ (λ a b. hlevel Bool_is_set) (λ x y h. ltb_of_le _ _ (omega (arith, lt_of_ltb _ _ h)))

pub le_trans : (a b c : ℚ) → lt b a ≡ false → lt c b ≡ false → lt c a ≡ false
unfolding lt
le_trans =
    ind₃ (λ a b c. hlevel Bool_is_set)
      λ x y z h k. ltb_of_le _ _ (
        le_of_mul-le-mul_right {k = y.scale}
          (omega (
            arith,
            mul-le-mul_right z.scale (le_of_ltb _ _ h),
            mul-le-mul_right x.scale (le_of_ltb _ _ k),
          ))
          y.scale_pos)

pub le_antisymm : (a b : ℚ) → lt b a ≡ false → lt a b ≡ false → a ≡ b
unfolding lt
le_antisymm =
    ind₂ (λ a b. hlevel ℚ_is_set)
      λ x y h k. Quot.sound (omega (arith, le_of_ltb _ _ h, le_of_ltb _ _ k))

pub lit_mono : (m n k : ℕ) → m ≤ n → lt (mk (decimal n k)) (mk (decimal m k)) ≡ false
unfolding lt
lit_mono m n k h = ltb_of_le _ _ (omega (arith, mul-le-mul_right (10 ^ k) h))

pub lit_scale : (n k : ℕ) → mk (decimal (10 * n) (suc k)) ≡ mk (decimal n k)
lit_scale n k = Quot.sound (simp pow-suc (omega arith))

-- Products of differences.
cross_le : (p q r s : ℕ) → p ≤ q → r ≤ s → q * r + p * s ≤ q * s + p * r
cross_le p q r s h k =
    let e : q ≡ p + (q - p) = omega arith in
    omega (arith, ap (λ (t : ℕ). t * r) e, ap (λ (t : ℕ). t * s) e, mul-le-mul_left (q - p) k)

cross_lt : (p q r s : ℕ) → p < q → r < s → q * r + p * s < q * s + p * r
cross_lt p q r s h k =
    let e : q ≡ p + (q - p) = omega arith in
    let step : (q - p) * r < (q - p) * s = mul-lt-mul_of_pos_left k (omega arith) in
    omega (arith, ap (λ (t : ℕ). t * r) e, ap (λ (t : ℕ). t * s) e)

abbrev pub zero_ℚ : ℚ
zero_ℚ = mk (decimal 0 0)

pub neg-lt_of_pos : (a : ℚ) → lt zero_ℚ a ≡ true → lt (neg a) zero_ℚ ≡ true
unfolding lt neg
neg-lt_of_pos =
    Quot.ind (λ a. hlevel Bool_is_set) λ x h. ltb_of_lt _ _ (omega (arith, lt_of_ltb _ _ h))

pub sub_nonneg : (a b : ℚ) → lt a b ≡ false → lt (add a (neg b)) zero_ℚ ≡ false
unfolding lt neg add
sub_nonneg =
    ind₂ (λ a b. hlevel Bool_is_set) λ x y h. ltb_of_le _ _ (omega (arith, le_of_ltb _ _ h))

pub sub-le : (a b : ℚ) → lt b zero_ℚ ≡ false → lt a (add a (neg b)) ≡ false
unfolding lt neg add
sub-le =
    ind₂ (λ a b. hlevel Bool_is_set)
      λ x y h.
        let k : y.down ≤ y.up = omega (arith, le_of_ltb _ _ h) in
        ltb_of_le _ _ (omega (arith, mul-le-mul_right (x.scale * x.scale) k))

pub add_nonneg : (a b : ℚ) → lt a zero_ℚ ≡ false → lt b zero_ℚ ≡ false → lt (add a b) zero_ℚ ≡ false
unfolding lt add
add_nonneg =
    ind₂ (λ a b. hlevel Bool_is_set)
      λ x y h k.
        let p : x.down ≤ x.up = omega (arith, le_of_ltb _ _ h) in
        let q : y.down ≤ y.up = omega (arith, le_of_ltb _ _ k) in
        ltb_of_le _ _ (omega (arith, mul-le-mul_right y.scale p, mul-le-mul_right x.scale q))

pub add_pos : (a b : ℚ) → lt zero_ℚ a ≡ true → lt b zero_ℚ ≡ false → lt zero_ℚ (add a b) ≡ true
unfolding lt add
add_pos =
    ind₂ (λ a b. hlevel Bool_is_set)
      λ x y h k.
        let p : x.down < x.up = omega (arith, lt_of_ltb _ _ h) in
        let q : y.down ≤ y.up = omega (arith, le_of_ltb _ _ k) in
        let p' : x.down * y.scale < x.up * y.scale = mul-lt-mul_of_pos_right p y.scale_pos in
        ltb_of_lt _ _ (omega (arith, mul-le-mul_right x.scale q))

pub mul_nonneg : (a b : ℚ) → lt a zero_ℚ ≡ false → lt b zero_ℚ ≡ false → lt (mul a b) zero_ℚ ≡ false
unfolding lt mul
mul_nonneg =
    ind₂ (λ a b. hlevel Bool_is_set)
      λ x y h k.
        let p : x.down ≤ x.up = omega (arith, le_of_ltb _ _ h) in
        let q : y.down ≤ y.up = omega (arith, le_of_ltb _ _ k) in
        ltb_of_le _ _ (omega (arith, cross_le x.down x.up y.down y.up p q))

pub mul_pos : (a b : ℚ) → lt zero_ℚ a ≡ true → lt zero_ℚ b ≡ true → lt zero_ℚ (mul a b) ≡ true
unfolding lt mul
mul_pos =
    ind₂ (λ a b. hlevel Bool_is_set)
      λ x y h k.
        let p : x.down < x.up = omega (arith, lt_of_ltb _ _ h) in
        let q : y.down < y.up = omega (arith, lt_of_ltb _ _ k) in
        ltb_of_lt _ _ (omega (arith, cross_lt x.down x.up y.down y.up p q))

pub mul_mono_left :
    (a b c : ℚ) → lt c zero_ℚ ≡ false → lt b a ≡ false → lt (mul c b) (mul c a) ≡ false
unfolding lt mul
mul_mono_left =
    ind₃ (λ a b c. hlevel Bool_is_set)
      λ x y z h k.
        let p : z.down ≤ z.up = omega (arith, le_of_ltb _ _ h) in
        ltb_of_le _ _ (
          omega (
            arith,
            mul-le-mul_right z.scale (
                cross_le z.down z.up (x.up * y.scale + y.down * x.scale)
                  (y.up * x.scale + x.down * y.scale) p (le_of_ltb _ _ k)),
          ))
