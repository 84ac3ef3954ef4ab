-- ===== src/Expiring/Gain.antt =====
-- The return of an opportunity that ends now or later.
use pmt.Prelude.{Bool-cases, inl, inr, Returns, returned}
use pmt.Numeric.{Numeric, ◌-◌, ◌*◌, ◌/◌, ◌<?◌, ◌≤◌, ◌<◌, nought}
use pmt.Numeric.Order.{KeepsSigns, divide_pos}
use pmt.Expiring.{MaxReturn, hourly_rate, calculate_max_return}

module _ {F : Type 0} ⦃f : Numeric F⦄ where
  -- No part of the return is below zero.
  pub record IsReturn (r : MaxReturn F) : Type 0 where
    pub gains : nought ≤ r.max_return_pct
    pub rate : nought ≤ r.hourly_rate_pct
    pub drop : nought ≤ r.break_even_drop_pct

  module _ (laws : KeepsSigns F) where
    hourly_rate_nonneg :
        (gain hours : F) → nought ≤ gain → nought ≤ hours → nought ≤ hourly_rate gain hours
    unfolding hourly_rate
    hourly_rate_nonneg gain hours h k = rw k (elim (Bool-cases (nought <? hours)) [
      | inl e ↦ rw e (laws.div_nonneg gain hours h e)
      | inr e ↦ rw e h
    ])

    -- Over numbers with the rules of signs, which floats meet with their rounding, for a price over 0
    -- and up to 100 per cent, and an end that is not past, the computation returns: the gain, the
    -- hourly rate and the drop to break even are not below zero.
    pub calculate_max_return-IsReturn :
        (price_pct hours_left : F)
        → nought < price_pct
        → price_pct ≤ f.lit 100 0
        → nought ≤ hours_left
        → Returns IsReturn (calculate_max_return price_pct hours_left)
    unfolding calculate_max_return
    calculate_max_return-IsReturn price_pct hours_left h k l =
        let drop = f.lit 100 0 - price_pct in
        let drop_nonneg = laws.sub_nonneg (f.lit 100 0) price_pct k in
        let gain =
          laws.mul_nonneg (drop / price_pct) (f.lit 100 0)
            (laws.div_nonneg drop price_pct drop_nonneg h) (laws.lit_nonneg 100) in
        rw (divide_pos drop price_pct h) (
          returned (record {
            gains = gain;
            rate = hourly_rate_nonneg (drop / price_pct * f.lit 100 0) hours_left gain l;
            drop = drop_nonneg;
          }))
