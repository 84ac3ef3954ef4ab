-- ===== src/Numeric/Rational/Fractions.antt =====
-- Fractions as triples of natural numbers, and the relation of being the same number.
use Prim.Native.Nat.{ℕ, zero, suc, ◌+◌, ◌-◌, ◌*◌, ◌^◌, ◌<◌}
use mathlib.Core.Path.{◌≡◌, ap}
use mathlib.Core.Bool.{Bool}
use native.Mathlib.Omega.{arith}
use native.Mathlib.Nat.{
  zero-lt-suc, pow-suc, mul-pos, eq_of_mul-eq-mul_right, mul-lt-mul_of_pos_right,
  lt_of_mul-lt-mul_right,
}
use native.Mathlib.Decide.{dec_lt}
use pmt.Prelude.Tests.{ltb}

pub record Fraction : Type 0 where
  pub up : ℕ
  pub down : ℕ
  pub scale : ℕ
  pub scale_pos : 0 < scale

infix 4 ◌≈◌
abbrev pub ◌≈◌ : Fraction → Fraction → Type 0
x ≈ y = x.up * y.scale + y.down * x.scale ≡ y.up * x.scale + x.down * y.scale

abbrev pub sum_of : Fraction → Fraction → Fraction
sum_of x y = record {
  scale_pos = mul-pos x.scale_pos y.scale_pos;
  scale = x.scale * y.scale;
  up = x.up * y.scale + y.up * x.scale;
  down = x.down * y.scale + y.down * x.scale;
}

abbrev pub product_of : Fraction → Fraction → Fraction
product_of x y = record {
  up = x.up * y.up + x.down * y.down;
  down = x.up * y.down + x.down * y.up;
  scale = x.scale * y.scale;
  scale_pos = mul-pos x.scale_pos y.scale_pos;
}

abbrev pub opposite : Fraction → Fraction
opposite x = record { up = x.down; down = x.up; scale = x.scale; scale_pos = x.scale_pos }

abbrev pub below : Fraction → Fraction → Bool
below x y = ltb (x.up * y.scale + y.down * x.scale) (y.up * x.scale + x.down * y.scale)

pub same_number : (x y z : Fraction) → x ≈ y → y ≈ z → x ≈ z
same_number x y z p q =
    eq_of_mul-eq-mul_right y.scale y.scale_pos _ _
      (omega (arith, ap (λ (t : ℕ). t * z.scale) p, ap (λ (t : ℕ). t * x.scale) q))

pub sum_respects : (x v y w : Fraction) → x ≈ v → y ≈ w → sum_of x y ≈ sum_of v w
sum_respects x v y w p q =
    omega
      (arith, ap (λ (t : ℕ). t * (y.scale * w.scale)) p, ap (λ (t : ℕ). t * (x.scale * v.scale)) q)

product_respects_left : (x v y : Fraction) → x ≈ v → product_of x y ≈ product_of v y
product_respects_left x v y p =
    omega (arith, ap (λ (t : ℕ). t * (y.scale * y.up)) p, ap (λ (t : ℕ). t * (y.scale * y.down)) p)

product_respects_right : (x y w : Fraction) → y ≈ w → product_of x y ≈ product_of x w
product_respects_right x y w p =
    omega (arith, ap (λ (t : ℕ). t * (x.scale * x.up)) p, ap (λ (t : ℕ). t * (x.scale * x.down)) p)

pub product_respects : (x v y w : Fraction) → x ≈ v → y ≈ w → product_of x y ≈ product_of v w
product_respects x v y w p q =
    same_number (product_of x y) (product_of v y) (product_of v w) (product_respects_left x v y p)
      (product_respects_right v y w q)

lt_scaled : (a b a' b' k k' : ℕ) → 0 < k → a * k + b' * k' ≡ b * k + a' * k' → a < b → a' < b'
lt_scaled a b a' b' k k' h e l =
    let scaled : a * k < b * k = mul-lt-mul_of_pos_right l h in
    lt_of_mul-lt-mul_right k' (omega arith)

ltb_of_iff : (a b a' b' : ℕ) → (a < b → a' < b') → (a' < b' → a < b) → ltb a b ≡ ltb a' b'
ltb_of_iff a b a' b' f g = ground arith

-- A test of two scaled numbers is the test of the numbers.
ltb_scaled :
    (a b a' b' k k' : ℕ) → 0 < k → 0 < k' → a * k + b' * k' ≡ b * k + a' * k' → ltb a b ≡ ltb a' b'
ltb_scaled a b a' b' k k' h h' e =
    ltb_of_iff a b a' b' (lt_scaled a b a' b' k k' h e) (lt_scaled a' b' a b k' k h' (omega arith))

pub below_respects : (x v y w : Fraction) → x ≈ v → y ≈ w → below x y ≡ below v w
below_respects x v y w p q =
    ltb_scaled _ _ _ _ (v.scale * w.scale) (x.scale * y.scale) (mul-pos v.scale_pos w.scale_pos)
      (mul-pos x.scale_pos y.scale_pos)
      (omega (
        arith,
        ap (λ (t : ℕ). t * (y.scale * w.scale)) p,
        ap (λ (t : ℕ). t * (x.scale * v.scale)) q,
      ))

abbrev pub zero_fraction : Fraction
zero_fraction = record { up = 0; down = 0; scale = 1; scale_pos = zero-lt-suc 0 }

pub gap_pos : (a b : ℕ) → a < b → 0 < b - a
gap_pos a b h = omega arith

-- The inverse of a number that is not zero; that of zero is zero.
unfoldable pub inverse : Fraction → Fraction
unfolding dec_lt
inverse x = elim (dec_lt x.down x.up) [
  | yes h ↦ record {
    up = x.scale;
    down = 0;
    scale = x.up - x.down;
    scale_pos = gap_pos x.down x.up h;
  }
  | no n ↦ elim (dec_lt x.up x.down) [
    | yes h ↦ record {
      up = 0;
      down = x.scale;
      scale = x.down - x.up;
      scale_pos = gap_pos x.up x.down h;
    }
    | no m ↦ zero_fraction
  ]
]

gap_scaled :
    (u d u' d' m m' : ℕ)
    → d < u
    → d' < u'
    → u * m' + d' * m ≡ u' * m + d * m'
    → m * (u' - d') ≡ m' * (u - d)
gap_scaled u d u' d' m m' h h' e =
    let left : u ≡ d + (u - d) = omega arith in
    let right : u' ≡ d' + (u' - d') = omega arith in
    omega (arith, ap (λ (t : ℕ). t * m') left, ap (λ (t : ℕ). t * m) right)

pub inverse_congr : (x v : Fraction) → x ≈ v → inverse x ≈ inverse v
unfolding inverse
inverse_congr x v e =
    let up_lt : x.down < x.up → v.down < v.up =
      lt_scaled x.down x.up v.down v.up v.scale x.scale v.scale_pos (omega arith) in
    let up_gt : v.down < v.up → x.down < x.up =
      lt_scaled v.down v.up x.down x.up x.scale v.scale x.scale_pos (omega arith) in
    let down_lt : x.up < x.down → v.up < v.down =
      lt_scaled x.up x.down v.up v.down v.scale x.scale v.scale_pos (omega arith) in
    let down_gt : v.up < v.down → x.up < x.down =
      lt_scaled v.up v.down x.up x.down x.scale v.scale x.scale_pos (omega arith) in
    ground (
      arith,
      gap_scaled x.up x.down v.up v.down x.scale v.scale,
      gap_scaled x.down x.up v.down v.up x.scale v.scale,
      up_lt,
      up_gt,
      down_lt,
      down_gt,
    )

pub opposite_congr : (x v : Fraction) → x ≈ v → opposite x ≈ opposite v
opposite_congr x v p = omega arith

pub power_pos : (k : ℕ) → 0 < 10 ^ k
power_pos zero = omega arith
power_pos (suc k) = simp pow-suc (omega (arith, power_pos k))
