-- ===== src/Rewards/Scores.antt =====
-- pmstrat/pmstrat/rewards.py: which orders `score_order` counts, and how much.
use pmt.Prelude.{
  ◌≡◌, refl, ◌↔◌, true, some, arith, Returns, returned, Returns-if, Ensures, gives, Ensures-elim,
  if◌then◌else◌,
}
use pmt.Numeric.{Numeric, ◌-◌, ◌/◌, ◌<◌, ◌≤◌, ◌<?◌, nought}
use pmt.Numeric.Order.{IsOrdered, le_refl, divide_pos, mul_mono}
use pmt.Rewards.{MarketRewardConfig, Order, RewardScore, distance_of, score_order, weighted}

module _ {D : Type 0} ⦃d : Numeric D⦄ where
  -- The order is large enough and stands on its own side of the mid price, within the spread.
  abbrev pub Qualifies : Order D → D → MarketRewardConfig D → Type 0
  Qualifies order mid config =
      (config.min_size ≤ order.size)
      × (distance_of order mid ≤ config.max_spread)
      × (nought ≤ distance_of order mid)

  pub record IsScored (order : Order D) (mid : D) (config : MarketRewardConfig D)
      (s : RewardScore D) : Type 0 where
    pub same_order : s.order ≡ order
    pub distance : s.distance_from_mid ≡ distance_of order mid
    pub qualifies : (s.qualified ≡ true) ↔ Qualifies order mid config
    pub score_nonneg : nought ≤ s.score
    pub score_of : s.score ≡ (if s.qualified then s.score else nought)

  -- The parameters of a market make sense.
  pub record IsConfig (config : MarketRewardConfig D) : Type 0 where
    pub spread : nought < config.max_spread
    pub size : nought ≤ config.min_size
    pub multiplier : nought ≤ config.multiplier
    pub pool : nought ≤ config.daily_pool_usdc

  module _ (laws : IsOrdered D) where
    hundred_pos : nought < d.lit 100 0
    hundred_pos = laws.lit_pos 99 0

    -- What qualifies is scored by a product of numbers that are not negative.
    weighted_nonneg :
        (config : MarketRewardConfig D) (order : Order D) (ratio : D)
        → IsConfig config
        → nought ≤ order.size
        → nought ≤ ratio
        → nought ≤ weighted config order ratio
    weighted_nonneg config order ratio c h k =
        laws.mul_nonneg _ _ (laws.mul_nonneg _ _ (laws.mul_nonneg ratio ratio k k) c.multiplier)
          (laws.div_nonneg order.size _ h hundred_pos)

    -- Over numbers with the laws of an order, where the parameters make sense, an order is always scored. It qualifies exactly if it is
    -- large enough and its distance from the mid price, on its own side, is within the spread. Its
    -- score is not negative, and zero if it does not qualify.
    pub score_order-IsScored :
        (order : Order D) (mid : D) (config : MarketRewardConfig D)
        → IsConfig config
        → Returns (IsScored order mid config) (score_order order mid config)
    unfolding score_order
    score_order-IsScored order mid config c =
        let distance = distance_of order mid in
        Returns-if (order.size <? config.min_size)
          (λ small. returned (record {
            same_order = refl;
            distance = refl;
            qualifies = ground arith;
            score_nonneg = le_refl laws nought;
            score_of = refl;
          }))
          λ enough.
            Returns-if (config.max_spread <? distance)
              (λ far. returned (record {
                same_order = refl;
                distance = refl;
                qualifies = ground arith;
                score_nonneg = le_refl laws nought;
                score_of = refl;
              }))
              λ near.
                Returns-if (distance <? nought)
                  (λ crossing. returned (record {
                    same_order = refl;
                    distance = refl;
                    qualifies = ground arith;
                    score_nonneg = le_refl laws nought;
                    score_of = refl;
                  }))
                  λ beside.
                    rw (divide_pos (config.max_spread - distance) config.max_spread c.spread) (
                      returned (record {
                        same_order = refl;
                        distance = refl;
                        qualifies = (λ e. (enough, near, beside), λ q. refl);
                        score_nonneg =
                            weighted_nonneg config order _ c
                              (laws.le_trans nought config.min_size order.size c.size enough)
                              (laws.div_nonneg _ config.max_spread
                                (laws.sub_nonneg config.max_spread distance near) c.spread);
                        score_of = refl;
                      }))

    ratio_of : Order D → D → MarketRewardConfig D → D
    ratio_of order mid config = (config.max_spread - distance_of order mid) / config.max_spread

    score_of_qualified :
        (order : Order D) (mid : D) (config : MarketRewardConfig D)
        → IsConfig config
        → Qualifies order mid config
        → Ensures
            (λ s. s.score ≡ weighted config order (ratio_of order mid config))
            (score_order order mid config)
    unfolding score_order ratio_of
    score_of_qualified order mid config c q =
        rw
          (
            q.0,
            q.1,
            q.2,
            divide_pos (config.max_spread - distance_of order mid) config.max_spread c.spread,
          )
          (gives refl)

    ratio_mono :
        (near far : Order D) (mid mid' : D) (config : MarketRewardConfig D)
        → IsConfig config
        → Qualifies far mid' config
        → distance_of near mid ≤ distance_of far mid'
        → (nought ≤ ratio_of far mid' config)
          × (ratio_of far mid' config ≤ ratio_of near mid config)
    unfolding ratio_of
    ratio_mono near far mid mid' config c q' h = (
      laws.div_nonneg _ config.max_spread (laws.sub_nonneg config.max_spread _ q'.1) c.spread,
      laws.div_mono _ _ config.max_spread c.spread (laws.sub_anti _ _ config.max_spread h),
    )

    weighted_mono :
        (config : MarketRewardConfig D) (near far : Order D) (r r' : D)
        → IsConfig config
        → near.size ≡ far.size
        → nought ≤ far.size
        → nought ≤ r'
        → r' ≤ r
        → weighted config far r' ≤ weighted config near r
    weighted_mono config near far r r' c size h k le =
        let weight_nonneg = laws.div_nonneg far.size _ h hundred_pos in
        let squares = mul_mono laws r' r r' r k (laws.le_trans nought r' r k le) le le in
        let scaled =
          mul_mono laws _ _ config.multiplier config.multiplier (laws.mul_nonneg r' r' k k)
            c.multiplier squares (le_refl laws _) in
        rw size (
          mul_mono laws _ _ (far.size / d.lit 100 0) _
            (laws.mul_nonneg _ _ (laws.mul_nonneg r' r' k k) c.multiplier) weight_nonneg scaled
            (le_refl laws _))

    -- Over numbers with the laws of an order, where the parameters make sense, of two orders of one size that qualify, each scored at a
    -- mid price, the one that stands no farther from its mid price scores at least as much.
    pub score_order_mono :
        (near far : Order D) (mid mid' : D) (config : MarketRewardConfig D)
        → IsConfig config
        → near.size ≡ far.size
        → Qualifies near mid config
        → Qualifies far mid' config
        → distance_of near mid ≤ distance_of far mid'
        → (s s' : RewardScore D) → score_order near mid config ≡ some s
        → score_order far mid' config ≡ some s'
        → s'.score ≤ s.score
    score_order_mono near far mid mid' config c size q q' h s s' e e' =
        let ratios = ratio_mono near far mid mid' config c q' h in
        rw
          (
            Ensures-elim (score_of_qualified near mid config c q) e,
            Ensures-elim (score_of_qualified far mid' config c q') e',
          )
          (weighted_mono config near far _ _ c size
            (laws.le_trans nought config.min_size far.size c.size q'.0) ratios.0 ratios.1)
