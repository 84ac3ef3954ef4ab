-- ===== src/Strategies/Quoting.antt =====
-- pmstrat/pmstrat/strategies/market_maker.py: the quotes around a mid price. The body of
-- strategies/dynamic_market_maker.py computes them in the same way, with its own parameters.
pub mod Bounds
use pmt.Prelude.{String, Bool, true, false, Option, none, some, List, [], ◌∷◌, ◌++◌, if◌then◌else◌}
use pmt.Numeric.{Numeric, ◌+◌, ◌-◌, ◌*◌, ◌/◌, ◌<?◌, ◌≤?◌, nought}
use pmt.Signal.{Signal, buy, sell, cancel, Urgency}
use pmt.Context.{Position}

pub record Params (D : Type 0) : Type 0 where
  pub spread_bps : D
  pub skew_factor : D
  pub max_position : D
  pub neg_max_position : D
  pub order_size : D
  pub min_edge : D

pub record Quote (D : Type 0) : Type 0 where
  pub my_bid : D
  pub my_ask : D
  pub buy_size : D
  pub sell_size : D
  pub can_buy : Bool
  pub can_sell : Bool

module _ {D : Type 0} ⦃d : Numeric D⦄ where
  -- The size of the position, zero without one.
  abbrev pub size_of : Option (Position D) → D
  size_of none = nought
  size_of (some pos) = pos.size

  abbrev pub half_spread : Params D → D → D
  half_spread p mid = mid * (p.spread_bps / d.lit 20000 0)

  -- The bid and the ask before they are clamped.
  abbrev pub raw_bid : Params D → D → D → D
  raw_bid p mid position_size = mid - half_spread p mid - position_size * p.skew_factor

  abbrev pub raw_ask : Params D → D → D → D
  raw_ask p mid position_size = mid + half_spread p mid - position_size * p.skew_factor

  -- The quote around `mid` for a position, or none where the edge is too small.
  unfoldable pub make_quote : Params D → D → D → Option (Quote D)
  make_quote p mid position_size =
      let bid = raw_bid p mid position_size in
      let ask = raw_ask p mid position_size in
      let remaining_buy = p.max_position - position_size in
      let remaining_sell = p.max_position + position_size in
      if ask - bid <? p.min_edge * d.lit 2 0
      then none
      else some (record {
        my_bid = if bid <? d.lit 1 2 then d.lit 1 2 else bid;
        my_ask = if d.lit 99 2 <? ask then d.lit 99 2 else ask;
        buy_size = if remaining_buy <? p.order_size then remaining_buy else p.order_size;
        sell_size = if remaining_sell <? p.order_size then remaining_sell else p.order_size;
        can_buy = position_size <? p.max_position;
        can_sell = p.neg_max_position <? position_size;
      })

  -- The two orders of a quote.
  unfoldable pub place_bid : String → Quote D → List (Signal D)
  place_bid token q =
      if q.can_buy
      then (if nought <? q.buy_size then buy token q.my_bid q.buy_size Urgency.low ∷ [] else [])
      else []

  unfoldable pub place_ask : String → Quote D → List (Signal D)
  place_ask token q =
      if q.can_sell
      then (if nought <? q.sell_size then sell token q.my_ask q.sell_size Urgency.low ∷ [] else [])
      else []

  -- The signals for one token: its orders are cancelled first.
  unfoldable pub place : String → Quote D → List (Signal D)
  place token q = cancel token ∷ (place_bid token q ++ place_ask token q)
