-- ===== src/Strategies/SureBets.antt =====
-- pmstrat/pmstrat/strategies/sure_bets.py: buys of outcomes that are nearly certain and expire within
-- 48 hours.
pub mod Bets
pub mod Opportunities
use pmt.Prelude.{
  ℕ, String, Bool, true, false, Option, none, some, List, [], ◌∷◌, if◌then◌else◌, leb, ◌&&◌, ◌||◌,
  ◌>>=◌, ◌>>◌, skip_if,
}
use pmt.Numeric.{Numeric, ◌-◌, ◌/◌, ◌<?◌, ◌≤?◌, nought}
use pmt.Dict.{Dict}
use pmt.Signal.{Signal, buy, Urgency, or_hold}
use pmt.Context.{MarketInfo, Context, book, position, hours_until_expiry}
use pmt.Strategies.Quoting.{size_of}
use pmt.Strategies.Words.{lower, contains}

abbrev pub exclude_keywords : List String
exclude_keywords =
    "dota" ∷ "counter-strike" ∷ "valorant" ∷ "league of legends" ∷ "overwatch" ∷ "csgo" ∷ "cs2"
    ∷ "lol" ∷ "pubg" ∷ "fortnite" ∷ "rocket league" ∷ "starcraft" ∷ "kill handicap" ∷ "map handicap"
    ∷ "game handicap" ∷ "games total" ∷ "bo3" ∷ "bo5" ∷ "esports" ∷ "e-sports" ∷ " vs " ∷ " vs. "
    ∷ " fc" ∷ " afc" ∷ " cf" ∷ "united fc" ∷ "city fc" ∷ "o/u 2.5" ∷ "o/u 3.5" ∷ "o/u 4.5"
    ∷ "o/u 1.5" ∷ "o/u 0.5" ∷ "over/under" ∷ "over 0.5" ∷ "over 1.5" ∷ "over 2.5" ∷ "over 3.5"
    ∷ "over 4.5" ∷ "under 0.5" ∷ "under 1.5" ∷ "under 2.5" ∷ "under 3.5" ∷ "under 4.5"
    ∷ "premier league" ∷ "epl" ∷ "champions league" ∷ "la liga" ∷ "bundesliga" ∷ "serie a"
    ∷ "ligue 1" ∷ "eredivisie" ∷ "championship" ∷ "league one" ∷ "league two" ∷ "copa america"
    ∷ "euros" ∷ "euro 2024" ∷ "euro 2025" ∷ "world cup" ∷ "nfl" ∷ "nba" ∷ "mlb" ∷ "nhl" ∷ "mls"
    ∷ "ufc" ∷ "wwe" ∷ "ncaa" ∷ "super bowl" ∷ "stanley cup" ∷ "world series" ∷ "fifa" ∷ "olympics"
    ∷ "tennis" ∷ "golf" ∷ "boxing" ∷ "mma" ∷ "f1" ∷ "nascar" ∷ "cricket" ∷ "rugby" ∷ "atp" ∷ "wta"
    ∷ "pga" ∷ []

unfoldable pub any_keyword : String → List String → Bool
any_keyword question_lower [] = false
any_keyword question_lower (keyword ∷ keywords) =
    contains question_lower keyword || any_keyword question_lower keywords

unfoldable pub is_excluded : String → Bool
is_excluded question_lower = any_keyword question_lower exclude_keywords

module _ {D : Type 0} ⦃d : Numeric D⦄ where
  -- The filter on liquidity, which lets a market without one pass.
  abbrev pub is_thin : Option D → Bool
  is_thin none = false
  is_thin (some liquidity) = liquidity <? d.lit 500 0

  -- The least of what the position limit leaves, the size on the book and the largest order.
  unfoldable pub order_size : D → D → D
  order_size current_size ask_size =
      let remaining = d.lit 100 0 - current_size in
      let size = if ask_size <? remaining then ask_size else remaining in
      if d.lit 50 0 <? size then d.lit 50 0 else size

  -- The filters on the price, the return and the sizes. The ask is not zero where the return is
  -- divided by it, since it is at least 0.95.
  unfoldable pub bet_at : String → D → D → D → Option (Signal D)
  bet_at token_id ask_price ask_size current_size = do
    skip_if (ask_price <? d.lit 95 2)
    skip_if (d.lit 99 2 <? ask_price)
    skip_if ((d.lit 100 2 - ask_price) / ask_price <? d.lit 1 2)
    skip_if (d.lit 100 0 ≤? current_size)
    let size = order_size current_size ask_size
    skip_if (size <? d.lit 10 0)
    some (buy token_id ask_price size Urgency.medium)

-- What a market adds to the signals of the markets after it.
unfoldable pub with_signal {ℓ} : {A : Type ℓ} → Option A → List A → List A
with_signal none rest = rest
with_signal (some signal) rest = signal ∷ rest

module _ {D F : Type 0} ⦃d : Numeric D⦄ ⦃f : Numeric F⦄ where
  -- The signal for one market, or none where the loop continues without it.
  unfoldable pub bet_on : (ℕ → F) → Context D F → String → MarketInfo F → Option (Signal D)
  bet_on hours ctx token_id m = do
    skip_if (is_excluded (lower m.question))
    skip_if (is_thin m.liquidity)
    hours_left ← hours_until_expiry hours m
    skip_if (hours_left <? nought)
    skip_if (f.lit 48 0 <? hours_left)
    b ← book ctx token_id
    ask_price ← b.best_ask
    bet_at token_id ask_price b.ask_size (size_of (position ctx token_id))

  unfoldable pub bets : (ℕ → F) → Context D F → Dict (MarketInfo F) → List (Signal D)
  bets hours ctx [] = []
  bets hours ctx ((token_id, m) ∷ markets) =
      with_signal (bet_on hours ctx token_id m) (bets hours ctx markets)

  unfoldable pub on_tick : (ℕ → F) → Context D F → List (Signal D)
  on_tick hours ctx = or_hold (bets hours ctx ctx.markets)
