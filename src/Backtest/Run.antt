-- ===== src/Backtest/Run.antt =====
-- pmstrat/pmstrat/backtest.py: `Backtester.run`. A strategy is any function of the context with a
-- state of its own, which it may keep in global variables. `run` takes from its caller the
-- time of `datetime.now()` and the length in days of the time between two timestamps, which
-- `timedelta` and `float` compute.
use pmt.Prelude.{
  ℕ, String, Bool, true, false, suc, not, Option, none, some, List, [], ◌∷◌, ◌>>=◌, if◌then◌else◌,
  length, ◌||◌,
}
use text.Mathlib.Text.{◌==◌}
use pmt.Numeric.{Numeric, ◌+◌, one}
use pmt.Dict.{Dict, insert}
use pmt.Signal.{Signal}
use pmt.Context.{OrderBookSnapshot, Position, MarketInfo, Context}
use pmt.Backtest.{Books, Backtester, Fill, execute_signal, check_resolutions}
use pmt.Backtest.Pnl.{realized_pnl, unrealized_pnl, estimate_rewards, is_winning_fill}

pub record Tick (D : Type 0) : Type 0 where
  pub timestamp : ℕ
  pub token_id : String
  pub best_bid : Option D
  pub best_ask : Option D
  pub bid_size : D
  pub ask_size : D
  pub question : String
  pub outcome : String
  pub end_date : Option ℕ

pub record BacktestResult (D : Type 0) : Type 0 where
  pub start_time : ℕ
  pub end_time : ℕ
  pub num_ticks : ℕ
  pub num_trades : ℕ
  pub total_pnl : D
  pub realized : D
  pub unrealized : D
  pub estimated_rewards : D
  pub total_return : D
  -- The winning fills among all fills; `none` is the rate 0.0 of a run without fills.
  pub win_rate : Option (ℕ × ℕ)
  pub fills : List (Fill D)
  pub positions : Dict (Position D)

-- The variables of `run`, with the object and the strategy's own state.
pub record Running (S D F : Type 0) : Type 0 where
  pub num_ticks : ℕ
  pub start_time : Option ℕ
  pub end_time : Option ℕ
  pub books : Books D
  pub markets : Dict (MarketInfo F)
  pub tester : Backtester D
  pub strategy_state : S

abbrev pub Strategy : Type 0 → Type 0 → Type 0 → Type 0
Strategy S D F = S → Context D F → List (Signal D) × S

is_some {ℓ} : {A : Type ℓ} → Option A → Bool
is_some none = false
is_some (some a) = true

-- The book of a tick.
abbrev pub snapshot : {D : Type 0} → Tick D → OrderBookSnapshot D
snapshot tick = record {
  token_id = tick.token_id;
  best_bid = tick.best_bid;
  best_ask = tick.best_ask;
  bid_size = tick.bid_size;
  ask_size = tick.ask_size;
}

-- The market information that a tick brings, if it names a question or an end date.
unfoldable pub update_markets : {D F : Type 0} → Tick D → Dict (MarketInfo F) → Dict (MarketInfo F)
unfolding is_some
update_markets tick markets =
    if not (tick.question == "") || is_some tick.end_date
    then insert tick.token_id
        (record {
          token_id = tick.token_id;
          question = tick.question;
          outcome = tick.outcome;
          slug = "";
          end_date = tick.end_date;
          liquidity = none;
        })
        markets
    else markets

-- `time or now`
abbrev pub time_or : ℕ → Option ℕ → ℕ
time_or now none = now
time_or now (some t) = t

module _ {D : Type 0} ⦃d : Numeric D⦄ where
  -- `days` is `Decimal(str((end - start).total_seconds() /
  -- 86400))`, and a run without ticks counts as one day.
  duration_days : (ℕ → ℕ → D) → Option ℕ → Option ℕ → D
  duration_days days (some start_time) (some end_time) = days start_time end_time
  duration_days days _ _ = one

  count_winning : List (Fill D) → ℕ
  count_winning [] = 0
  count_winning (fill ∷ fills) =
      if is_winning_fill fill then suc (count_winning fills) else count_winning fills

  win_rate_of : List (Fill D) → Option (ℕ × ℕ)
  win_rate_of [] = none
  win_rate_of (fill ∷ fills) = some (count_winning (fill ∷ fills), length (fill ∷ fills))

-- The start of `run`.
unfoldable pub start : {S D F : Type 0} → Backtester D → S → Running S D F
start b s = record {
  num_ticks = 0;
  start_time = none;
  end_time = none;
  books = [];
  markets = [];
  tester = b;
  strategy_state = s;
}

module _ {D : Type 0} ⦃d : Numeric D⦄ where
  -- The context of a tick, over the books and markets that hold it already.
  unfoldable pub build_context :
      {F : Type 0} → Tick D → Books D → Dict (MarketInfo F) → Backtester D → Context D F
  build_context tick books markets b = record {
    timestamp = tick.timestamp;
    books = books;
    positions = b.positions;
    markets = markets;
    total_realized_pnl = realized_pnl b.positions;
    total_unrealized_pnl = unrealized_pnl books b.positions;
    usdc_balance = b.balance;
  }

  -- `for signal in signals`
  unfoldable pub execute_all : List (Signal D) → Books D → ℕ → Backtester D → Option (Backtester D)
  execute_all [] books timestamp b = some b
  execute_all (signal ∷ signals) books timestamp b = do
    (b', fill) ← execute_signal signal books timestamp b
    execute_all signals books timestamp b'

module _ {S D F : Type 0} ⦃d : Numeric D⦄ where
  -- One round of the loop over the ticks.
  unfoldable pub step : Strategy S D F → Tick D → Running S D F → Option (Running S D F)
  step strategy_fn tick r =
      let books = insert tick.token_id (snapshot tick) r.books in
      let markets = update_markets tick r.markets in
      let (signals, s) = strategy_fn r.strategy_state (build_context tick books markets r.tester) in
      do
        b ← execute_all signals books tick.timestamp r.tester
        some (record {
          num_ticks = suc r.num_ticks;
          start_time = some (time_or tick.timestamp r.start_time);
          end_time = some tick.timestamp;
          books = books;
          markets = markets;
          tester = check_resolutions books b;
          strategy_state = s;
        })

  unfoldable pub run_ticks : Strategy S D F → List (Tick D) → Running S D F → Option (Running S D F)
  run_ticks strategy_fn [] r = some r
  run_ticks strategy_fn (tick ∷ ticks) r = do
    r' ← step strategy_fn tick r
    run_ticks strategy_fn ticks r'

  -- The statistics at the end of `run`.
  unfoldable pub finish : (ℕ → ℕ → D) → ℕ → Running S D F → BacktestResult D
  unfolding duration_days count_winning win_rate_of
  finish days now r =
      let realized = realized_pnl r.tester.positions in
      let unrealized = unrealized_pnl r.books r.tester.positions in
      let rewards =
        estimate_rewards r.tester.positions (duration_days days r.start_time r.end_time) in
      record {
        start_time = time_or now r.start_time;
        end_time = time_or now r.end_time;
        num_ticks = r.num_ticks;
        num_trades = length r.tester.fills;
        total_pnl = realized + unrealized;
        realized = realized;
        unrealized = unrealized;
        estimated_rewards = rewards;
        total_return = realized + unrealized + rewards;
        win_rate = win_rate_of r.tester.fills;
        fills = r.tester.fills;
        positions = r.tester.positions;
      }

  -- `run`: the result, with the object and the strategy's state that are left.
  unfoldable pub run :
      Strategy S D F
      → (ℕ → ℕ → D)
      → ℕ
      → List (Tick D)
      → Backtester D
      → S
      → Option (BacktestResult D × Running S D F)
  run strategy_fn days now ticks b s = do
    r ← run_ticks strategy_fn ticks (start b s)
    some (finish days now r, r)
