-- ===== src/Numeric/Exact.antt =====
-- The laws of exact arithmetic. They hold of `decimal.Decimal` as long as no result needs more than
-- its 28 digits.
use pmt.Prelude.{◌≡◌, sym, ap, ◌∙◌, ◌≡⟨◌⟩◌, ◌∎}
use pmt.Numeric.{Numeric, ◌+◌, ◌-◌, ◌*◌, ◌/◌, ◌<◌, nought, one}

pub record IsExact (D : Type 0) ⦃d : Numeric D⦄ : Type 0 where
  pub add_comm : (a b : D) → a + b ≡ b + a
  pub add_assoc : (a b c : D) → a + b + c ≡ a + (b + c)
  pub nought-add : (a : D) → nought + a ≡ a
  pub sub-eq-add-negate : (a b : D) → a - b ≡ a + d.negate b
  pub add-negate_self : (a : D) → a + d.negate a ≡ nought
  pub mul_comm : (a b : D) → a * b ≡ b * a
  pub mul_assoc : (a b c : D) → a * b * c ≡ a * (b * c)
  pub mul-add : (a b c : D) → a * (b + c) ≡ a * b + a * c
  pub one-mul : (a : D) → one * a ≡ a
  pub div-mul_cancel : (a b : D) → nought < b → a / b * b ≡ a

module _ {D : Type 0} ⦃d : Numeric D⦄ (laws : IsExact D) where
  open laws use {add_comm, add_assoc, nought-add, sub-eq-add-negate, add-negate_self}
  open laws use {mul_comm, mul-add}

  pub add-nought : (a : D) → a + nought ≡ a
  add-nought a = add_comm a nought ∙ nought-add a

  pub add_left_comm : (a b c : D) → a + (b + c) ≡ b + (a + c)
  add_left_comm a b c = rw (← add_assoc a b c, add_comm a b) (add_assoc b a c)

  pub add_interchange : (a b c e : D) → a + b + (c + e) ≡ a + c + (b + e)
  add_interchange a b c e = rw (add_assoc a b, add_left_comm b c e) (sym (add_assoc a c (b + e)))

  -- What stands beside a number and its opposite.
  pub add-negate_cancel : (a b : D) → a + (d.negate a + b) ≡ b
  add-negate_cancel a b = rw (← add_assoc a _ b, add-negate_self a) (nought-add b)

  pub add_cancel_left : (a b c : D) → a + b ≡ a + c → b ≡ c
  add_cancel_left a b c e =
      b
      ≡⟨ sym (add-negate_cancel' b) ⟩ d.negate a + (a + b)
      ≡⟨ ap (λ t. d.negate a + t) e ⟩ d.negate a + (a + c)
      ≡⟨ add-negate_cancel' c ⟩ c ∎
    where
      add-negate_cancel' : (b : D) → d.negate a + (a + b) ≡ b
      add-negate_cancel' b = add_left_comm (d.negate a) a b ∙ add-negate_cancel a b

  pub negate-add : (a b : D) → d.negate (a + b) ≡ d.negate a + d.negate b
  negate-add a b = add_cancel_left (a + b) _ _ (
      add-negate_self (a + b)
      ∙ sym (
          add_interchange a b (d.negate a) (d.negate b)
          ∙ rw (add-negate_self a, add-negate_self b) (nought-add nought)))

  pub mul-nought : (a : D) → a * nought ≡ nought
  mul-nought a =
      add_cancel_left (a * nought) _ _
        (sym (mul-add a nought nought) ∙ rw (nought-add nought) (sym (add-nought (a * nought))))

  pub mul-negate : (a b : D) → a * d.negate b ≡ d.negate (a * b)
  mul-negate a b = add_cancel_left (a * b) _ _ (
      sym (mul-add a b (d.negate b))
      ∙ rw (add-negate_self b, add-negate_self (a * b)) (mul-nought a))

  pub mul-sub : (a b c : D) → a * (b - c) ≡ a * b - a * c
  mul-sub a b c = rw (sub-eq-add-negate, sub-eq-add-negate, mul-add, mul-negate)
