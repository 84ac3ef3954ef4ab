-- ===== src/Backtest.antt =====
-- pmstrat/pmstrat/backtest.py: the state of `Backtester` and the execution of one signal.
-- `none` is the exception that `decimal` raises on a division by zero; it ends the run.
-- The fields `rewards_sim` and `resting_orders` are never read after the constructor.
pub mod Pnl
pub mod Run
pub mod Positions
pub mod Total
pub mod Safety
pub mod Ledger
pub mod Outcomes
use pmt.Prelude.{
  ℕ, String, Bool, true, false, Option, none, some, List, [], ◌∷◌, ◌++◌, if◌then◌else◌, ◌>>=◌,
}
use pmt.Numeric.{Numeric, ◌+◌, ◌-◌, ◌*◌, ◌/◌, ◌<?◌, ◌≤?◌, nought, one, min, divide}
use pmt.Dict.{Dict, lookup, insert, get_or}
use pmt.Signal.{Signal, buy, sell, cancel, hold, shutdown}
use pmt.Context.{OrderBookSnapshot, Position, empty_position, mid_price}

pub data Side : Type 0 where
  bought sold : Side

pub record Fill (D : Type 0) : Type 0 where
  pub token_id : String
  pub side : Side
  pub price : D
  pub size : D
  pub timestamp : ℕ
  pub slippage : D

pub record Backtester (D : Type 0) : Type 0 where
  pub initial_balance : D
  pub slippage_pct : D
  pub balance : D
  pub positions : Dict (Position D)
  pub fills : List (Fill D)

abbrev pub Books : Type 0 → Type 0
Books D = Dict (OrderBookSnapshot D)

-- What `_execute_signal` leaves and returns.
abbrev pub Executed : Type 0 → Type 0
Executed D = Backtester D × Option (Fill D)

module _ {D : Type 0} ⦃d : Numeric D⦄ where
  -- `Backtester.__init__`
  unfoldable pub new_backtester : D → D → Backtester D
  new_backtester initial_balance slippage_bps = record {
    initial_balance = initial_balance;
    slippage_pct = slippage_bps / d.lit 10000 0;
    balance = initial_balance;
    positions = [];
    fills = [];
  }

  -- The average entry price after a fill of `_update_position`.
  unfoldable pub entry_price_after : Position D → D → D → Option D
  entry_price_after pos size_delta price =
      if nought <? size_delta
      then (if pos.size ≤? nought
          then some price
          else divide (pos.avg_entry_price * pos.size + price * size_delta) (pos.size + size_delta))
      else some pos.avg_entry_price

  -- The realized P&L after a fill of `_update_position`.
  unfoldable pub realized_after : Position D → D → D → D
  realized_after pos size_delta price =
      if nought <? size_delta
      then pos.realized_pnl
      else if size_delta <? nought
      then pos.realized_pnl + d.negate size_delta * (price - pos.avg_entry_price)
      else pos.realized_pnl

  -- The position that `_update_position` writes back, with its new average entry price.
  unfoldable pub updated : Position D → D → D → D → Position D
  updated pos size_delta price avg = record pos {
    size = pos.size + size_delta;
    avg_entry_price = avg;
    realized_pnl = realized_after pos size_delta price;
  }

  -- `_update_position`
  unfoldable pub update_position : String → D → D → Dict (Position D) → Option (Dict (Position D))
  update_position token size_delta price positions =
      let pos = get_or (empty_position token) (lookup token positions) in
      do
        avg ← entry_price_after pos size_delta price
        some (insert token (updated pos size_delta price avg) positions)

  -- The size that the balance pays for.
  unfoldable pub affordable : D → D → D → Option D
  affordable price wanted balance =
      if balance <? price * wanted then divide balance price else some wanted

  -- `self.fills.append(fill)` with the new balance and positions.
  abbrev pub record_fill : Backtester D → D → Dict (Position D) → Fill D → Executed D
  record_fill b balance positions fill = (
    record b { balance = balance; positions = positions; fills = b.fills ++ (fill ∷ []) },
    some fill,
  )

  -- The end of the `Buy` branch, with the size that the balance allows.
  unfoldable pub fill_buy : String → D → D → D → ℕ → Backtester D → Option (Executed D)
  fill_buy token best_ask fill_price fill_size timestamp b =
      if fill_size <? one then some (b, none) else do
        positions ← update_position token fill_size fill_price b.positions
        some (
            record_fill b (b.balance - fill_price * fill_size) positions (record {
              token_id = token;
              side = bought;
              price = fill_price;
              size = fill_size;
              timestamp = timestamp;
              slippage = fill_price - best_ask;
            }))

  -- The `Buy` branch, at the best ask.
  unfoldable pub buy_at : String → D → D → D → ℕ → Backtester D → Option (Executed D)
  buy_at token size best_ask ask_size timestamp b =
      let fill_price = best_ask * (one + b.slippage_pct) in
      do
        fill_size ← affordable fill_price (min size ask_size) b.balance
        fill_buy token best_ask fill_price fill_size timestamp b

  -- The `Sell` branch, at the best bid and with a position.
  unfoldable pub sell_at : String → D → D → D → Position D → ℕ → Backtester D → Option (Executed D)
  sell_at token size best_bid bid_size pos timestamp b =
      let fill_price = best_bid * (one - b.slippage_pct) in
      let fill_size = min (min size pos.size) bid_size in
      if fill_size <? one then some (b, none) else do
        positions ← update_position token (d.negate fill_size) fill_price b.positions
        some (
            record_fill b (b.balance + fill_price * fill_size) positions (record {
              token_id = token;
              side = sold;
              price = fill_price;
              size = fill_size;
              timestamp = timestamp;
              slippage = best_bid - fill_price;
            }))

  unfoldable pub execute_buy :
      String → D → Option (OrderBookSnapshot D) → ℕ → Backtester D → Option (Executed D)
  execute_buy token size none timestamp b = some (b, none)
  execute_buy token size (some book) timestamp b = elim book.best_ask [
    | none ↦ some (b, none)
    | some best_ask ↦ buy_at token size best_ask book.ask_size timestamp b
  ]

  -- The guards of the `Sell` branch.
  unfoldable pub sell_held :
      String → D → D → D → Option (Position D) → ℕ → Backtester D → Option (Executed D)
  sell_held token size best_bid bid_size none timestamp b = some (b, none)
  sell_held token size best_bid bid_size (some pos) timestamp b =
      if pos.size ≤? nought
      then some (b, none)
      else sell_at token size best_bid bid_size pos timestamp b

  unfoldable pub execute_sell :
      String → D → Option (OrderBookSnapshot D) → ℕ → Backtester D → Option (Executed D)
  execute_sell token size none timestamp b = some (b, none)
  execute_sell token size (some book) timestamp b = elim book.best_bid [
    | none ↦ some (b, none)
    | some best_bid ↦
        sell_held token size best_bid book.bid_size (lookup token b.positions) timestamp b
  ]

  -- `_execute_signal`
  unfoldable pub execute_signal : Signal D → Books D → ℕ → Backtester D → Option (Executed D)
  execute_signal (buy token price size urgency) books timestamp b =
      execute_buy token size (lookup token books) timestamp b
  execute_signal (sell token price size urgency) books timestamp b =
      execute_sell token size (lookup token books) timestamp b
  execute_signal (cancel token) books timestamp b = some (b, none)
  execute_signal hold books timestamp b = some (b, none)
  execute_signal (shutdown reason) books timestamp b = some (b, none)

  -- One position of the loop in `_check_resolutions`, with the balance.
  unfoldable pub settle : D → Position D → D → Position D × D
  settle mid pos balance =
      if d.lit 99 2 ≤? mid
      then (
        record pos {
          size = nought;
          realized_pnl = pos.realized_pnl + pos.size * (d.lit 100 2 - pos.avg_entry_price);
        },
        balance + pos.size * d.lit 100 2,
      )
      else if mid ≤? d.lit 1 2
      then (
        record pos {
          size = nought;
          realized_pnl = pos.realized_pnl + pos.size * (d.lit 0 2 - pos.avg_entry_price);
        },
        balance,
      )
      else (pos, balance)

  -- The guards of that loop.
  unfoldable pub check_resolution : Option (OrderBookSnapshot D) → Position D → D → Position D × D
  check_resolution none pos balance = (pos, balance)
  check_resolution (some book) pos balance =
      if pos.size ≤? nought
      then (pos, balance)
      else elim (mid_price book) [ none ↦ (pos, balance) | some mid ↦ settle mid pos balance ]

  unfoldable pub resolve_all : Books D → Dict (Position D) → D → Dict (Position D) × D
  resolve_all books [] balance = ([], balance)
  resolve_all books ((token, pos) ∷ positions) balance =
      let (pos', balance') = check_resolution (lookup token books) pos balance in
      let (positions', balance'') = resolve_all books positions balance' in
      ((token, pos') ∷ positions', balance'')

  -- `_check_resolutions`
  unfoldable pub check_resolutions : Books D → Backtester D → Backtester D
  check_resolutions books b =
      let (positions, balance) = resolve_all books b.positions b.balance in
      record b { positions = positions; balance = balance }
