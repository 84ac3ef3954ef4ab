-- ===== src/Tests/Rewarding.antt =====
-- Orders on both sides of a mid price of 0.50, with the default configuration.
use pmt.Prelude.{ℕ, String, ◌≡◌, refl, none, some, List, [], ◌∷◌, Returns, map, Returns-elim}
use pmt.Numeric.{◌≤◌}
use pmt.Numeric.Rational.{ℚ, rational, lt, add, neg}
use pmt.Numeric.Rational.Laws.{rational-IsOrdered}
use pmt.Dict.{Dict, AllEntries, lookup}
use pmt.Rewards.{
  MarketRewardConfig, Order, RewardScore, default_config, get_config, score_order, distance_of,
  calculate_epoch_rewards, estimate_daily_rewards,
}
use pmt.Rewards.Scores.{IsConfig, IsScored, Qualifies, score_order-IsScored, score_order_mono}
use pmt.Rewards.Epoch.{IsPaid, calculate_epoch_rewards-IsPaid, estimate_daily_rewards-IsPaid}
use pmt.Tests.Backtesting.{cents, shares}

abbrev config : MarketRewardConfig ℚ
config = default_config

abbrev order_at : String → ℕ → Order ℚ
order_at side price = record {
  token_id = "yes";
  side = side;
  price = cents price;
  size = shares 100;
  timestamp = 0;
}

abbrev near : Order ℚ
near = order_at "BID" 49

abbrev far : Order ℚ
far = order_at "ASK" 53

config-IsConfig : IsConfig config
unfolding lt
config-IsConfig = record { spread = refl; size = refl; multiplier = refl; pool = refl }

score_order-IsScored_example :
    Returns (IsScored near (cents 50) config) (score_order near (cents 50) config)
score_order-IsScored_example =
    score_order-IsScored rational-IsOrdered near (cents 50) config config-IsConfig

score_of : (order : Order ℚ) → (s : RewardScore ℚ) × (score_order order (cents 50) config ≡ some s)
score_of order =
    let scored = score_order-IsScored rational-IsOrdered order (cents 50) config config-IsConfig in
    let (s, e, p) = Returns-elim scored in (s, e)

near-Qualifies : Qualifies near (cents 50) config
unfolding lt add neg distance_of
near-Qualifies = (refl, refl, refl)

far-Qualifies : Qualifies far (cents 50) config
unfolding lt add neg distance_of
far-Qualifies = (refl, refl, refl)

nearer : distance_of near (cents 50) ≤ distance_of far (cents 50)
unfolding lt add neg distance_of
nearer = refl

score_order_mono_example : (score_of far).0.score ≤ (score_of near).0.score
score_order_mono_example =
    score_order_mono rational-IsOrdered near far (cents 50) (cents 50) config config-IsConfig refl
      near-Qualifies far-Qualifies nearer (score_of near).0 (score_of far).0 (score_of near).1
      (score_of far).1

calculate_epoch_rewards-IsPaid_example :
    Returns
      (IsPaid (shares 50))
      (calculate_epoch_rewards [] (near ∷ far ∷ []) (cents 50) "yes" none 60 1000)
unfolding get_config lookup
calculate_epoch_rewards-IsPaid_example =
    calculate_epoch_rewards-IsPaid rational-IsOrdered [] (near ∷ far ∷ []) (cents 50) "yes" 60 1000
      config-IsConfig

abbrev configs : Dict (MarketRewardConfig ℚ)
configs = ("yes", config) ∷ []

abbrev by_token : Dict (List (Order ℚ))
by_token = ("yes", near ∷ far ∷ []) ∷ ("no", []) ∷ []

estimate_daily_rewards-IsPaid_example :
    Returns
      (λ rewards.
        (map (λ e. e.0) rewards ≡ "yes" ∷ "no" ∷ [])
        × AllEntries (λ token. IsPaid (get_config configs token).daily_pool_usdc) rewards)
      (estimate_daily_rewards configs by_token (("yes", cents 50) ∷ []) 1000)
estimate_daily_rewards-IsPaid_example =
    estimate_daily_rewards-IsPaid rational-IsOrdered configs by_token (("yes", cents 50) ∷ []) 1000
      (config-IsConfig, tt)
