-- ===== src/Context.antt =====
-- pmstrat/pmstrat/context.py: the market state that a strategy reads on a tick. `D` are the
-- `Decimal` numbers and `F` the `float` ones. A time is a number of microseconds.
use pmt.Prelude.{ℕ, String, Option, none, some}
use mathlib.Core.Option
use pmt.Numeric.{Numeric, ◌+◌, ◌-◌, ◌/◌, nought}
use pmt.Dict.{Dict, lookup}

pub record OrderBookSnapshot (D : Type 0) : Type 0 where
  pub token_id : String
  pub best_bid : Option D
  pub best_ask : Option D
  pub bid_size : D
  pub ask_size : D

pub record Position (D : Type 0) : Type 0 where
  pub token_id : String
  pub size : D
  pub avg_entry_price : D
  pub unrealized_pnl : D
  pub realized_pnl : D
  pub last_price : Option D

pub record MarketInfo (F : Type 0) : Type 0 where
  pub token_id : String
  pub question : String
  pub outcome : String
  pub slug : String
  pub end_date : Option ℕ
  pub liquidity : Option F

pub record Context (D F : Type 0) : Type 0 where
  pub timestamp : ℕ
  pub books : Dict (OrderBookSnapshot D)
  pub positions : Dict (Position D)
  pub markets : Dict (MarketInfo F)
  pub total_realized_pnl : D
  pub total_unrealized_pnl : D
  pub usdc_balance : D

module _ {D : Type 0} ⦃d : Numeric D⦄ where
  -- A result that needs both sides of the book.
  both_sides : (D → D → D) → Option D → Option D → Option D
  both_sides f (some bid) (some ask) = some (f bid ask)
  both_sides f _ _ = none

  unfoldable pub mid_price : OrderBookSnapshot D → Option D
  unfolding both_sides
  mid_price book = both_sides (λ bid ask. (bid + ask) / d.lit 2 0) book.best_bid book.best_ask

  unfoldable pub spread : OrderBookSnapshot D → Option D
  unfolding both_sides
  spread book = both_sides (λ bid ask. ask - bid) book.best_bid book.best_ask

  -- `Position(token_id=token_id)`, with the defaults of the class.
  abbrev pub empty_position : String → Position D
  empty_position token = record {
    token_id = token;
    size = nought;
    avg_entry_price = nought;
    unrealized_pnl = nought;
    realized_pnl = nought;
    last_price = none;
  }

module _ {D F : Type 0} where
  abbrev pub book : Context D F → String → Option (OrderBookSnapshot D)
  book ctx token = lookup token ctx.books

  abbrev pub position : Context D F → String → Option (Position D)
  position ctx token = lookup token ctx.positions

  abbrev pub market : Context D F → String → Option (MarketInfo F)
  market ctx token = lookup token ctx.markets

-- `ctx.mid(token_id)`
unfoldable pub mid : {D F : Type 0} ⦃d : Numeric D⦄ → Context D F → String → Option D
mid ctx token = elim (book ctx token) [ none ↦ none | some b ↦ mid_price b ]

-- `market.hours_until_expiry`; `hours` is what the source computes from the clock.
unfoldable pub hours_until_expiry : {F : Type 0} → (ℕ → F) → MarketInfo F → Option F
hours_until_expiry hours m = Option.map hours m.end_date
