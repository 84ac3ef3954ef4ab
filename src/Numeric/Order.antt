-- ===== src/Numeric/Order.antt =====
-- What the proofs use of the order of the numbers. Each law holds of `decimal.Decimal` with its
-- rounding to 28 digits, since rounding is monotone and keeps numbers of at most 28 digits.
use Prim.Native.Nat.{◌*◌ as times_ℕ, ◌≤◌ as le_ℕ}
use pmt.Prelude.{ℕ, suc, ◌≡◌, some, ◌⊎◌, inl, inr, arith, Bool-cases}
use pmt.Numeric.{Numeric, ◌+◌, ◌-◌, ◌*◌, ◌/◌, ◌<◌, ◌≤◌, ◌<?◌, nought, one, min, divide}

pub record IsOrdered (D : Type 0) ⦃d : Numeric D⦄ : Type 0 where
  pub lt_asymm : (a b : D) → a < b → a ≤ b
  pub le_trans : (a b c : D) → a ≤ b → b ≤ c → a ≤ c
  pub le_antisymm : (a b : D) → a ≤ b → b ≤ a → a ≡ b
  pub zero-lt-one : nought {D = D} < one
  pub lit_mono : (m n k : ℕ) → le_ℕ m n → d.lit m k ≤ d.lit n k
  pub lit_pos : (n k : ℕ) → nought < d.lit (suc n) k
  pub lit_scale : (n k : ℕ) → d.lit (times_ℕ 10 n) (suc k) ≡ d.lit n k
  pub add-negate : (a b : D) → a + d.negate b ≡ a - b
  pub negate-negate : (a : D) → d.negate (d.negate a) ≡ a
  pub negate-lt_of_pos : (a : D) → nought < a → d.negate a < nought
  pub sub_nonneg : (a b : D) → b ≤ a → nought ≤ a - b
  pub sub-le : (a b : D) → nought ≤ b → a - b ≤ a
  pub add_pos : (a b : D) → nought < a → nought ≤ b → nought < a + b
  pub mul_pos : (a b : D) → nought < a → nought < b → nought < a * b
  pub add_nonneg : (a b : D) → nought ≤ a → nought ≤ b → nought ≤ a + b
  pub mul_nonneg : (a b : D) → nought ≤ a → nought ≤ b → nought ≤ a * b
  pub mul_mono_left : (a b c : D) → nought ≤ c → a ≤ b → c * a ≤ c * b
  pub mul_comm : (a b : D) → a * b ≡ b * a
  pub mul-one : (a : D) → a * one ≡ a
  pub sub_anti : (a b c : D) → a ≤ b → c - b ≤ c - a
  pub div_mono : (a b c : D) → nought < c → a ≤ b → a / c ≤ b / c
  pub div-le-one : (a b : D) → nought < b → a ≤ b → a / b ≤ one
  pub div_nonneg : (a b : D) → nought ≤ a → nought < b → nought ≤ a / b
  pub div-le_of_lt-mul : (a b c : D) → nought < b → a < b * c → a / b ≤ c

-- What a sort relies on: of two numbers one is not above the other, transitively. Floats meet this as
-- long as none of them is NaN.
pub record IsLinear (D : Type 0) ⦃d : Numeric D⦄ : Type 0 where
  pub lt_asymm : (a b : D) → a < b → a ≤ b
  pub le_trans : (a b c : D) → a ≤ b → b ≤ c → a ≤ c

-- The rules of signs, where `a ≤ b` says that `b` is not below `a`. Floats meet them, whatever is
-- rounded: no result that is too small, infinite or NaN is below zero.
pub record KeepsSigns (D : Type 0) ⦃d : Numeric D⦄ : Type 0 where
  pub lit_nonneg : (n : ℕ) → nought ≤ d.lit n 0
  pub sub_nonneg : (a b : D) → b ≤ a → nought ≤ a - b
  pub mul_nonneg : (a b : D) → nought ≤ a → nought ≤ b → nought ≤ a * b
  pub div_nonneg : (a b : D) → nought ≤ a → nought < b → nought ≤ a / b

module _ {D : Type 0} ⦃d : Numeric D⦄ where
  pub divide_pos : (a b : D) → nought < b → divide a b ≡ some (a / b)
  divide_pos a b h = ground arith

module _ {D : Type 0} ⦃d : Numeric D⦄ (laws : IsOrdered D) where
  open laws use {lt_asymm, le_trans, zero-lt-one}

  pub le_refl : (a : D) → a ≤ a
  le_refl a = elim (Bool-cases (a <? a)) [ inl e ↦ lt_asymm a a e | inr e ↦ e ]

  pub le_total : (a b : D) → (a ≤ b) ⊎ (b ≤ a)
  le_total a b = elim (Bool-cases (a <? b)) [ inl e ↦ inl (lt_asymm a b e) | inr e ↦ inr e ]

  pub lt_of_lt_of_le : (a b c : D) → a < b → b ≤ c → a < c
  lt_of_lt_of_le a b c h k = elim (Bool-cases (a <? c)) [
    | inl e ↦ e
    | inr e ↦ absurd (ground (arith, le_trans b c a k e))
  ]

  pub lt_of_le_of_lt : (a b c : D) → a ≤ b → b < c → a < c
  lt_of_le_of_lt a b c h k = elim (Bool-cases (a <? c)) [
    | inl e ↦ e
    | inr e ↦ absurd (ground (arith, le_trans c a b e h))
  ]

  pub zero-le-one : nought {D = D} ≤ one
  zero-le-one = lt_asymm nought one zero-lt-one

  -- An order with its arithmetic has what sorts and signs rely on.
  pub IsOrdered-IsLinear : IsLinear D
  IsOrdered-IsLinear = record { lt_asymm = lt_asymm; le_trans = le_trans }

  pub IsOrdered-KeepsSigns : KeepsSigns D
  IsOrdered-KeepsSigns = record {
    lit_nonneg = λ n. laws.lit_mono 0 n 0 (omega arith);
    sub_nonneg = laws.sub_nonneg;
    mul_nonneg = laws.mul_nonneg;
    div_nonneg = laws.div_nonneg;
  }

  pub min-le_left : (a b : D) → min a b ≤ a
  min-le_left a b = ground (arith, lt_asymm b a, le_refl a)

  pub min-le_right : (a b : D) → min a b ≤ b
  min-le_right a b = ground (arith, le_refl b)

  pub le-min : (a b c : D) → c ≤ a → c ≤ b → c ≤ min a b
  le-min a b c h k = ground arith

  pub mul_mono : (a b c e : D) → nought ≤ a → nought ≤ e → a ≤ b → c ≤ e → a * c ≤ b * e
  mul_mono a b c e h k p q =
      laws.le_trans (a * c) (a * e) (b * e) (laws.mul_mono_left c e a h q)
        (rw (laws.mul_comm a e, laws.mul_comm b e) (laws.mul_mono_left a b e k p))
