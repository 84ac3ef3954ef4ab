-- ===== src/Rewards/Epoch.antt =====
-- pmstrat/pmstrat/rewards.py: the rewards of an epoch, and of a day.
use mathlib.Core.Path.{subst}
use pmt.Prelude.{
  ap, ℕ, String, ◌≡◌, refl, none, List, [], ◌∷◌, arith, Bool-cases, inl, inr, All, map, Returns,
  returned, Returns->>=,
}
use pmt.Numeric.{Numeric, ◌+◌, ◌*◌, ◌≤◌, ◌<?◌, nought, one}
use pmt.Numeric.Order.{IsOrdered, le_refl, zero-le-one}
use pmt.Dict.{Dict, lookup, get_or, AllEntries, AllValues}
use pmt.Dict.Laws.{AllValues-get_or}
use pmt.Rewards.{
  MarketRewardConfig, Order, RewardScore, EpochReward, score_all, qualified_only, sum_scores,
  adjusted_score, total_or_estimate, share_of, get_config, default_config, calculate_epoch_rewards,
  estimate_daily_rewards,
}
use pmt.Rewards.Scores.{IsConfig, score_order-IsScored}

module _ {D : Type 0} ⦃d : Numeric D⦄ where
  abbrev IsNonneg : RewardScore D → Type 0
  IsNonneg s = nought ≤ s.score

  -- The share lies between 0 and 1, and the reward between 0 and the pool.
  pub record IsPaid (pool : D) (r : EpochReward D) : Type 0 where
    pub score_nonneg : nought ≤ r.your_score
    pub score-le-total : r.your_score ≤ r.total_score
    pub share_nonneg : nought ≤ r.your_share
    pub share-le-one : r.your_share ≤ one
    pub reward_nonneg : nought ≤ r.reward_usdc
    pub reward-le-pool : r.reward_usdc ≤ pool

  module _ (laws : IsOrdered D) where
    score_all-IsNonneg :
        (orders : List (Order D)) (mid : D) (config : MarketRewardConfig D)
        → IsConfig config
        → Returns (All IsNonneg) (score_all orders mid config)
    unfolding score_all
    score_all-IsNonneg [] mid config c = returned tt
    score_all-IsNonneg (order ∷ orders) mid config c =
        Returns->>= (score_order-IsScored laws order mid config c) λ s k.
          Returns->>= (score_all-IsNonneg orders mid config c)
            λ scores h. returned (k.score_nonneg, h)

    qualified-IsNonneg :
        (scores : List (RewardScore D)) → All IsNonneg scores → All IsNonneg (qualified_only scores)
    unfolding qualified_only
    qualified-IsNonneg [] h = tt
    qualified-IsNonneg (s ∷ scores) h = elim (Bool-cases s.qualified) [
      | inl e ↦ rw e (h.0, qualified-IsNonneg scores h.1)
      | inr e ↦ rw e (qualified-IsNonneg scores h.1)
    ]

    sum_nonneg :
        (acc : D) (scores : List (RewardScore D))
        → nought ≤ acc
        → All IsNonneg scores
        → nought ≤ sum_scores acc scores
    unfolding sum_scores
    sum_nonneg acc [] h k = h
    sum_nonneg acc (s ∷ scores) h k =
        sum_nonneg (acc + s.score) scores (laws.add_nonneg acc s.score h k.0) k.1

    adjusted_nonneg :
        (scores : List (RewardScore D)) (mid : D)
        → All IsNonneg scores
        → nought ≤ adjusted_score scores mid
    unfolding adjusted_score
    adjusted_nonneg scores mid h =
        let total = sum_scores nought scores in
        let bare = sum_nonneg nought scores (le_refl laws nought) h in
        let tripled =
          laws.mul_nonneg total (d.lit 3 0) bare (laws.lt_asymm _ _ (laws.lit_pos 2 0)) in
        let reduced = laws.div_nonneg total (d.lit 3 0) bare (laws.lit_pos 2 0) in ground arith

    estimate-le : (score : D) → nought ≤ score → score ≤ total_or_estimate none score
    unfolding total_or_estimate
    estimate-le score h = elim (Bool-cases (nought <? score)) [
      | inl e ↦ rw e (
          subst (λ t. t ≤ score * d.lit 20 0) (laws.mul-one score)
            (laws.mul_mono_left one (d.lit 20 0) score h (laws.lit_mono 1 20 0 (omega arith))))
      | inr e ↦ rw e (laws.le_trans score nought one e (zero-le-one laws))
    ]

    share_bounds :
        (score total : D)
        → nought ≤ score
        → score ≤ total
        → (nought ≤ share_of score total) × (share_of score total ≤ one)
    unfolding share_of
    share_bounds score total h k = elim (Bool-cases (nought <? total)) [
      | inl e ↦ rw e (laws.div_nonneg score total h e, laws.div-le-one score total e k)
      | inr e ↦ rw e (le_refl laws nought, zero-le-one laws)
    ]

    -- Over numbers with the laws of an order, with no total given and where the parameters of the market make sense, an epoch always has its
    -- reward: the score is not negative and at most the total, the share lies between 0 and 1, and
    -- the reward between 0 and the pool of the market.
    pub calculate_epoch_rewards-IsPaid :
        (configs : Dict (MarketRewardConfig D)) (orders : List (Order D)) (mid : D) (token : String)
        (duration now : ℕ)
        → IsConfig (get_config configs token)
        → Returns
            (IsPaid (get_config configs token).daily_pool_usdc)
            (calculate_epoch_rewards configs orders mid token none duration now)
    unfolding calculate_epoch_rewards
    calculate_epoch_rewards-IsPaid configs orders mid token duration now c =
        let config = get_config configs token in
        Returns->>= (score_all-IsNonneg orders mid config c) λ scores h.
          let score = adjusted_score (qualified_only scores) mid in
          let score_nonneg =
            adjusted_nonneg (qualified_only scores) mid (qualified-IsNonneg scores h) in
          let total = total_or_estimate none score in
          let below = estimate-le score score_nonneg in
          let share = share_bounds score total score_nonneg below in
          returned (record {
            score_nonneg = score_nonneg;
            score-le-total = below;
            share_nonneg = share.0;
            share-le-one = share.1;
            reward_nonneg = laws.mul_nonneg config.daily_pool_usdc _ c.pool share.0;
            reward-le-pool =
                subst (λ t. config.daily_pool_usdc * share_of score total ≤ t)
                  (laws.mul-one config.daily_pool_usdc)
                  (laws.mul_mono_left _ one config.daily_pool_usdc c.pool share.1);
          })

    default_config-IsConfig : IsConfig {D = D} default_config
    default_config-IsConfig = record {
      spread = laws.lit_pos 3 2;
      size = laws.lt_asymm _ _ (laws.lit_pos 19 0);
      multiplier = laws.lt_asymm _ _ (laws.lit_pos 9 1);
      pool = laws.lt_asymm _ _ (laws.lit_pos 49 0);
    }

    get_config-IsConfig :
        (configs : Dict (MarketRewardConfig D)) (token : String)
        → AllValues IsConfig configs
        → IsConfig (get_config configs token)
    unfolding get_config
    get_config-IsConfig configs token h =
        AllValues-get_or IsConfig token default_config configs h default_config-IsConfig

    -- Over numbers with the laws of an order, where the parameters of all markets make sense, the daily estimate never raises: it has a
    -- reward for each token with orders, between 0 and the pool of that token's market.
    pub estimate_daily_rewards-IsPaid :
        (configs : Dict (MarketRewardConfig D)) (by_token : Dict (List (Order D))) (mids : Dict D)
        (now : ℕ)
        → AllValues IsConfig configs
        → Returns
            (λ rewards.
              (map (λ e. e.0) rewards ≡ map (λ e. e.0) by_token)
              × AllEntries (λ token. IsPaid (get_config configs token).daily_pool_usdc) rewards)
            (estimate_daily_rewards configs by_token mids now)
    unfolding estimate_daily_rewards
    estimate_daily_rewards-IsPaid configs [] mids now h = returned (refl, tt)
    estimate_daily_rewards-IsPaid configs ((token, orders) ∷ by_token) mids now h =
        Returns->>=
          (calculate_epoch_rewards-IsPaid configs orders (get_or (d.lit 50 2) (lookup token mids))
            token 86_400_000_000 now (get_config-IsConfig configs token h))
          λ r k.
            Returns->>= (estimate_daily_rewards-IsPaid configs by_token mids now h)
              λ rest m. returned (ap (λ l. token ∷ l) m.0, (k, m.1))
