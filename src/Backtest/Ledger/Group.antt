-- ===== src/Backtest/Ledger/Group.antt =====
-- Sums and differences that the bookkeeping of a fill or of a resolution needs.
use pmt.Prelude.{◌≡◌, refl, sym, ap, ◌∙◌, ◌≡⟨◌⟩◌, ◌∎}
use pmt.Numeric.{Numeric, ◌+◌, ◌-◌, nought}
use pmt.Numeric.Exact.{
  IsExact, add-nought, add_left_comm, add_interchange, negate-add, add_cancel_left,
}

module _ {D : Type 0} ⦃d : Numeric D⦄ (laws : IsExact D) where
  open laws use {add_comm, add_assoc, nought-add, sub-eq-add-negate, add-negate_self}

  pub negate-negate : (a : D) → d.negate (d.negate a) ≡ a
  negate-negate a =
      add_cancel_left laws (d.negate a) _ _
        (add-negate_self (d.negate a) ∙ sym (add_comm _ a ∙ add-negate_self a))

  pub negate-nought : d.negate nought ≡ nought
  negate-nought = sym (nought-add _) ∙ add-negate_self nought

  pub add_right_comm : (a b c : D) → a + b + c ≡ a + c + b
  add_right_comm a b c = add_assoc a b c ∙ ap (λ t. a + t) (add_comm b c) ∙ sym (add_assoc a c b)

  -- What leaves one account enters the other.
  pub sub-add_move : (a b x : D) → a - x + (b + x) ≡ a + b
  sub-add_move a b x =
      ap (λ t. t + (b + x)) (sub-eq-add-negate a x)
      ∙ ap (λ t. a + d.negate x + t) (add_comm b x)
      ∙ add_assoc a (d.negate x) (x + b)
      ∙ ap (λ t. a + t)
          (sym (add_assoc _ x b)
            ∙ ap (λ t. t + b) (add_comm _ x ∙ add-negate_self x)
            ∙ nought-add b)

  pub add-add-negate_move : (a b x : D) → a + x + (b + d.negate x) ≡ a + b
  add-add-negate_move a b x =
      add_interchange laws a x b (d.negate x)
      ∙ ap (λ t. a + b + t) (add-negate_self x)
      ∙ add-nought laws (a + b)

  -- A buy: the value grows by the price paid.
  pub add-sub_right_comm : (a p r : D) → a + p - r ≡ a - r + p
  add-sub_right_comm a p r =
      sub-eq-add-negate (a + p) r
      ∙ add_right_comm a p (d.negate r)
      ∙ ap (λ t. t + p) (sym (sub-eq-add-negate a r))

  -- A sell: the value falls by the entry cost, and the gain is realized.
  pub sub-sub-add : (a f r p : D) → a - f - (r + (p - f)) ≡ a - r + d.negate p
  sub-sub-add a f r p =
      a - f - (r + (p - f))
      ≡⟨ rw
          (
            sub-eq-add-negate a f,
            sub-eq-add-negate (a + d.negate f),
            negate-add laws r,
            sub-eq-add-negate p f,
            negate-add laws p,
            negate-negate f,
          )
          refl ⟩
        a + d.negate f + (d.negate r + (d.negate p + f))
      ≡⟨ add_interchange laws a _ _ _ ⟩ a + d.negate r + (d.negate f + (d.negate p + f))
      ≡⟨ ap (λ t. a + d.negate r + t)
          (add_left_comm laws _ _ f
            ∙ ap (λ t. d.negate p + t) (add_comm _ f ∙ add-negate_self f)
            ∙ add-nought laws _) ⟩
        a + d.negate r + d.negate p
      ≡⟨ ap (λ t. t + d.negate p) (sym (sub-eq-add-negate a r)) ⟩ a - r + d.negate p ∎

  -- A resolution: nothing is left, and the payout less the entry cost is realized.
  pub nought-sub-add : (a r s : D) → nought - (r + (s - a)) ≡ a - r + d.negate s
  nought-sub-add a r s =
      ap (λ t. t - (r + (s - a))) (sym (add-negate_self a) ∙ sym (sub-eq-add-negate a a))
      ∙ sub-sub-add a a r s
