-- ===== src/Strategies/DynamicMarketMaker.antt =====
-- pmstrat/pmstrat/strategies/dynamic_market_maker.py: quotes for at most five markets that pass
-- the filters on liquidity, expiry, price and spread. `hours` is what the source computes from the
-- clock: the hours from now until a time.
pub mod Limits
use pmt.Prelude.{
  ℕ, suc, String, Option, none, some, List, [], ◌∷◌, ◌++◌, if◌then◌else◌, leb, ◌>>=◌, ◌>>◌, skip_if,
}
use pmt.Numeric.{Numeric, ◌+◌, ◌-◌, ◌/◌, ◌<?◌, nought}
use pmt.Dict.{Dict}
use pmt.Signal.{Signal, or_hold}
use pmt.Context.{hours_until_expiry, OrderBookSnapshot, MarketInfo, Context, book, position}
use pmt.Strategies.Quoting.{Params, size_of, make_quote, place}

abbrev pub max_tokens : ℕ
max_tokens = 5

module _ {D : Type 0} ⦃d : Numeric D⦄ where
  abbrev pub params : Params D
  params = record {
    spread_bps = d.lit 150 0;
    skew_factor = d.lit 1 3;
    max_position = d.lit 75 0;
    neg_max_position = nought - d.lit 75 0;
    order_size = d.lit 10 0;
    min_edge = d.lit 5 3;
  }

  -- The mid price of a book that passes the filters on price and spread. The mid price is not zero
  -- where the spread is divided by it, since it is at least 0.20.
  unfoldable pub mid_in_range : D → D → Option D
  mid_in_range bid ask = do
    let mid = (bid + ask) / d.lit 2 0
    skip_if (mid <? d.lit 20 2)
    skip_if (d.lit 80 2 <? mid)
    let spread_pct = (ask - bid) / mid
    skip_if (spread_pct <? d.lit 2 2)
    skip_if (d.lit 15 2 <? spread_pct)
    some mid

module _ {D F : Type 0} ⦃d : Numeric D⦄ ⦃f : Numeric F⦄ where
  -- The mid price of a market that passes the filters.
  unfoldable pub eligible_mid : (ℕ → F) → Context D F → String → MarketInfo F → Option D
  eligible_mid hours ctx token_id m = do
    liquidity ← m.liquidity
    skip_if (liquidity <? f.lit 10000 0)
    hours_left ← hours_until_expiry hours m
    skip_if (hours_left <? f.lit 24 0)
    b ← book ctx token_id
    bid ← b.best_bid
    ask ← b.best_ask
    mid_in_range bid ask

  -- The signals for one market, or none where the loop continues without them.
  unfoldable pub quote_market :
      (ℕ → F) → Context D F → String → MarketInfo F → Option (List (Signal D))
  quote_market hours ctx token_id m = do
    mid ← eligible_mid hours ctx token_id m
    q ← make_quote params mid (size_of (position ctx token_id))
    some (place token_id q)

  unfoldable pub quote_markets : (ℕ → F) → Context D F → ℕ → Dict (MarketInfo F) → List (Signal D)
  quote_markets hours ctx tokens_quoted [] = []
  quote_markets hours ctx tokens_quoted ((token_id, m) ∷ markets) =
      if leb max_tokens tokens_quoted then [] else elim (quote_market hours ctx token_id m) [
        | none ↦ quote_markets hours ctx tokens_quoted markets
        | some signals ↦ signals ++ quote_markets hours ctx (suc tokens_quoted) markets
      ]

  unfoldable pub on_tick : (ℕ → F) → Context D F → List (Signal D)
  on_tick hours ctx = or_hold (quote_markets hours ctx 0 ctx.markets)
