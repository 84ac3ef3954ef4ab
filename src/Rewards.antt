-- ===== src/Rewards.antt =====
-- pmstrat/pmstrat/rewards.py: the simulator of liquidity rewards. `none` is the exception that
-- `decimal` raises on a division by zero.
pub mod Scores
pub mod Epoch
use Prim.Native.Nat.{◌-◌ as minus_ℕ}
use text.Mathlib.Text.{◌==◌}
use pmt.Prelude.{
  ℕ, String, Bool, true, false, Option, none, some, List, [], ◌∷◌, if◌then◌else◌, ◌>>=◌, ◌&&◌, ◌||◌,
  not,
}
use pmt.Numeric.{Numeric, ◌+◌, ◌-◌, ◌*◌, ◌/◌, ◌<?◌, ◌≤?◌, nought, one, divide}
use pmt.Dict.{Dict, lookup, get_or}

pub record MarketRewardConfig (D : Type 0) : Type 0 where
  pub token_id : String
  pub daily_pool_usdc : D
  pub max_spread : D
  pub min_size : D
  pub multiplier : D

-- A resting order; the side is "BID" or "ASK".
pub record Order (D : Type 0) : Type 0 where
  pub token_id : String
  pub side : String
  pub price : D
  pub size : D
  pub timestamp : ℕ

-- The message of a score, with the numbers that it shows.
pub data Reason (D : Type 0) : Type 0 where
  empty : Reason D
  size_below_min : D → D → Reason D
  spread_above_max : D → D → Reason D
  crosses_spread : Reason D

pub record RewardScore (D : Type 0) : Type 0 where
  pub order : Order D
  pub score : D
  pub distance_from_mid : D
  pub qualified : Bool
  pub reason : Reason D

pub record EpochReward (D : Type 0) : Type 0 where
  pub token_id : String
  pub epoch_start : ℕ
  pub epoch_end : ℕ
  pub total_score : D
  pub your_score : D
  pub your_share : D
  pub reward_usdc : D
  pub orders_scored : List (RewardScore D)

module _ {D : Type 0} ⦃d : Numeric D⦄ where
  abbrev pub default_config : MarketRewardConfig D
  default_config = record {
    token_id = "default";
    daily_pool_usdc = d.lit 50 0;
    max_spread = d.lit 4 2;
    min_size = d.lit 20 0;
    multiplier = d.lit 10 1;
  }

  unfoldable pub get_config : Dict (MarketRewardConfig D) → String → MarketRewardConfig D
  get_config configs token = get_or default_config (lookup token configs)

  unfoldable pub distance_of : Order D → D → D
  distance_of order mid = if order.side == "BID" then mid - order.price else order.price - mid

  abbrev unqualified : Order D → D → Reason D → RewardScore D
  unqualified order distance reason = record {
    order = order;
    score = nought;
    distance_from_mid = distance;
    qualified = false;
    reason = reason;
  }

  abbrev pub square : D → D
  square a = a * a

  -- The score of an order that qualifies, from the ratio `(v - s) / v`.
  abbrev pub weighted : MarketRewardConfig D → Order D → D → D
  weighted config order ratio = square ratio * config.multiplier * (order.size / d.lit 100 0)

  unfoldable pub score_order : Order D → D → MarketRewardConfig D → Option (RewardScore D)
  score_order order mid config =
      let distance = distance_of order mid in
      if order.size <? config.min_size
      then some (unqualified order distance (size_below_min order.size config.min_size))
      else if config.max_spread <? distance
      then some (unqualified order distance (spread_above_max distance config.max_spread))
      else if distance <? nought
      then some (unqualified order distance crosses_spread)
      else do
        ratio ← divide (config.max_spread - distance) config.max_spread
        some (record {
          order = order;
          score = weighted config order ratio;
          distance_from_mid = distance;
          qualified = true;
          reason = empty;
        })

  unfoldable pub score_all :
      List (Order D) → D → MarketRewardConfig D → Option (List (RewardScore D))
  score_all [] mid config = some []
  score_all (order ∷ orders) mid config = do
    score ← score_order order mid config
    scores ← score_all orders mid config
    some (score ∷ scores)

  unfoldable pub qualified_only : List (RewardScore D) → List (RewardScore D)
  qualified_only [] = []
  qualified_only (s ∷ scores) =
      if s.qualified then s ∷ qualified_only scores else qualified_only scores

  unfoldable pub has_side : String → List (RewardScore D) → Bool
  has_side side [] = false
  has_side side (s ∷ scores) = s.order.side == side || has_side side scores

  unfoldable pub sum_scores : D → List (RewardScore D) → D
  sum_scores acc [] = acc
  sum_scores acc (s ∷ scores) = sum_scores (acc + s.score) scores

  is_empty : List (RewardScore D) → Bool
  is_empty [] = true
  is_empty (s ∷ scores) = false

  -- The score with the bonus for two sides, or the reduction for one in the mid range.
  unfoldable pub adjusted_score : List (RewardScore D) → D → D
  unfolding is_empty
  adjusted_score qualified mid =
      let your_score = sum_scores nought qualified in
      if has_side "BID" qualified && has_side "ASK" qualified
      then your_score * d.lit 3 0
      else if not (is_empty qualified) && (d.lit 10 2 <? mid && mid <? d.lit 90 2)
      then your_score / d.lit 3 0
      else your_score

  unfoldable pub total_or_estimate : Option D → D → D
  total_or_estimate (some total) your_score = total
  total_or_estimate none your_score = if nought <? your_score then your_score * d.lit 20 0 else one

  unfoldable pub share_of : D → D → D
  share_of your_score total = if nought <? total then your_score / total else nought

  -- `calculate_epoch_rewards` at the time `now`. An epoch that would begin before time 0 does not.
  unfoldable pub calculate_epoch_rewards :
      Dict (MarketRewardConfig D)
      → List (Order D)
      → D
      → String
      → Option D
      → ℕ
      → ℕ
      → Option (EpochReward D)
  calculate_epoch_rewards configs your_orders mid token total epoch_duration now =
      let config = get_config configs token in
      do
        scores ← score_all your_orders mid config
        let your_score = adjusted_score (qualified_only scores) mid
        let total_score = total_or_estimate total your_score
        let your_share = share_of your_score total_score
        some (record {
          token_id = token;
          epoch_start = minus_ℕ now epoch_duration;
          epoch_end = now;
          total_score = total_score;
          your_score = your_score;
          your_share = your_share;
          reward_usdc = config.daily_pool_usdc * your_share;
          orders_scored = scores;
        })

  -- `estimate_daily_rewards`: an epoch of a day for each token, at its mid price or 0.50.
  unfoldable pub estimate_daily_rewards :
      Dict (MarketRewardConfig D)
      → Dict (List (Order D))
      → Dict D
      → ℕ
      → Option (Dict (EpochReward D))
  estimate_daily_rewards configs [] mids now = some []
  estimate_daily_rewards configs ((token, orders) ∷ by_token) mids now = do
    reward ←
        calculate_epoch_rewards configs orders (get_or (d.lit 50 2) (lookup token mids)) token none
          86_400_000_000 now
    rest ← estimate_daily_rewards configs by_token mids now
    some ((token, reward) ∷ rest)

  unfoldable pub estimate_annual_yield : D → D → D
  estimate_annual_yield daily_reward capital_deployed =
      if capital_deployed ≤? nought then nought else daily_reward / capital_deployed * d.lit 365 0
