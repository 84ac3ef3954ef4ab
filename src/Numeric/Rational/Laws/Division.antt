-- ===== src/Numeric/Rational/Laws/Division.antt =====
-- Division of rational numbers.
use Prim.Native.Nat.{suc, ◌+◌, ◌-◌, ◌*◌, ◌<◌}
use mathlib.Core.Path.{subst}
use mathlib.Core.Quot
use native.Mathlib.Nat.{mul-le-mul_right}
use pmt.Prelude.{ℕ, ◌≡◌, ap, sym, ◌∙◌, true, false, arith, Bool-cases, inl, inr}
use pmt.Numeric.Rational.{ℚ, mk, add, mul, neg, inv, lt, rational, decimal, ℚ_is_set, Bool_is_set}
use pmt.Numeric.Rational.Fractions.{Fraction, ◌≈◌, product_of, inverse, power_pos}
use pmt.Numeric.Rational.Laws.Equations.{ind₂, ind₃, mul_comm, one-mul}
use pmt.Numeric.Rational.Laws.Order.{
  le_of_ltb, ltb_of_le, lt_of_ltb, ltb_of_lt, lt_asymm, zero_ℚ, mul_mono_left,
}

-- Division.
inverse_pos :
    (x : Fraction)
    → x.down < x.up
    → ((inverse x).up ≡ x.scale) × ((inverse x).down ≡ 0) × ((inverse x).scale ≡ x.up - x.down)
unfolding inverse
inverse_pos x h = ground arith

pub inv_pos : (a : ℚ) → lt zero_ℚ a ≡ true → lt zero_ℚ (inv a) ≡ true
unfolding lt inv
inv_pos =
    Quot.ind (λ a. hlevel Bool_is_set)
      λ x h.
        let p = inverse_pos x (omega (arith, lt_of_ltb _ _ h)) in
        ltb_of_lt _ _ (omega (arith, p.0, p.1, x.scale_pos))

inverse_cancel : (x y : Fraction) → y.down < y.up → product_of (product_of x (inverse y)) y ≈ x
inverse_cancel x y h =
    let p = inverse_pos y h in
    let e : y.up ≡ y.down + (y.up - y.down) = omega arith in
    rw (p.0, p.1, p.2)
      (omega (
        arith,
        ap (λ (t : ℕ). t * (x.up * y.scale * x.scale)) e,
        ap (λ (t : ℕ). t * (x.down * y.scale * x.scale)) e,
      ))

pub div-mul_cancel : (a b : ℚ) → lt zero_ℚ b ≡ true → mul (mul a (inv b)) b ≡ a
unfolding lt inv mul
div-mul_cancel =
    ind₂ (λ a b. hlevel ℚ_is_set)
      λ x y h. Quot.sound (inverse_cancel x y (omega (arith, lt_of_ltb _ _ h)))

pub div-le_of_lt-mul :
    (a b c : ℚ) → lt zero_ℚ b ≡ true → lt a (mul b c) ≡ true → lt c (mul a (inv b)) ≡ false
div-le_of_lt-mul a b c h k = elim (Bool-cases (lt c (mul a (inv b)))) [
  | inl e ↦
      let more = mul_mono_left c (mul a (inv b)) b (lt_asymm zero_ℚ b h) (lt_asymm _ _ e) in
      absurd (ground (arith, mul_comm b (mul a (inv b)), div-mul_cancel a b h))
  | inr e ↦ e
]

pub sub_anti : (a b c : ℚ) → lt b a ≡ false → lt (add c (neg a)) (add c (neg b)) ≡ false
unfolding lt add neg
sub_anti =
    ind₃ (λ a b c. hlevel Bool_is_set)
      λ x y z h.
        ltb_of_le _ _ (omega (arith, mul-le-mul_right (z.scale * z.scale) (le_of_ltb _ _ h)))

pub div_mono :
    (a b c : ℚ) → lt zero_ℚ c ≡ true → lt b a ≡ false → lt (mul b (inv c)) (mul a (inv c)) ≡ false
div_mono a b c h k =
    rw (mul_comm a (inv c), mul_comm b (inv c))
      (mul_mono_left a b (inv c) (lt_asymm zero_ℚ (inv c) (inv_pos c h)) k)

inv-mul_cancel : (b : ℚ) → lt zero_ℚ b ≡ true → mul b (inv b) ≡ mk (decimal 1 0)
inv-mul_cancel b h =
    mul_comm b (inv b)
    ∙ ap (λ t. mul t b) (sym (one-mul (inv b)))
    ∙ div-mul_cancel (mk (decimal 1 0)) b h

pub div-le-one :
    (a b : ℚ) → lt zero_ℚ b ≡ true → lt b a ≡ false → lt (mk (decimal 1 0)) (mul a (inv b)) ≡ false
div-le-one a b h k =
    subst (λ t. lt t (mul a (inv b)) ≡ false) (inv-mul_cancel b h) (div_mono a b b h k)

pub lit_pos : (n k : ℕ) → lt zero_ℚ (mk (decimal (suc n) k)) ≡ true
unfolding lt
lit_pos n k = ltb_of_lt _ _ (omega (arith, power_pos k))
