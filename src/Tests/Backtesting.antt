-- ===== src/Tests/Backtesting.antt =====
-- A backtest over two ticks: the first is bought, the second is sold.
use pmt.Prelude.{ℕ, zero, suc, ◌≡◌, refl, none, some, List, [], ◌∷◌, Returns, All, length}
use pmt.Numeric.{◌+◌, one}
use pmt.Numeric.Rational.{ℚ, mk, rational, decimal, lt, mul, inv, add, neg}
use pmt.Numeric.Rational.Fractions.{inverse}
use pmt.Dict.{lookup, insert, AllValues}
use native.Mathlib.Decide.{dec_lt}
use mathlib.Core.Option
use pmt.Numeric.Rational.Laws.{rational-IsOrdered, rational-IsExact}
use pmt.Signal.{buy, sell, hold, medium}
use pmt.Context.{OrderBookSnapshot, Position, empty_position, mid_price}
use pmt.Backtest.{
  Backtester, new_backtester, execute_signal, execute_buy, buy_at, affordable, fill_buy, sell_at,
  sell_held, execute_sell, update_position, updated, entry_price_after, realized_after,
  check_resolutions, resolve_all, check_resolution, settle,
}
use pmt.Backtest.Pnl.{position_value}
use pmt.Backtest.Run.{
  Tick, snapshot, BacktestResult, Running, Strategy, start, run, finish, run_ticks, step,
  execute_all, build_context, update_markets,
}
use pmt.Backtest.Safety.{IsSafe, run_safe}
use pmt.Backtest.Positions.{IsLong, IsWhole}
use pmt.Backtest.Total.{IsPriced}
use pmt.Backtest.Outcomes.{
  BuyOutcome, SellOutcome, execute_buy-BuyOutcome, execute_sell-SellOutcome,
}
use pmt.Backtest.Ledger.Balance.{run_balances}

abbrev pub cents : ℕ → ℚ
cents n = mk (decimal n 2)

abbrev pub shares : ℕ → ℚ
shares n = mk (decimal n 0)

abbrev pub quote_at : ℕ → ℕ → Tick ℚ
quote_at bid ask = record {
  timestamp = bid;
  token_id = "yes";
  best_bid = some (cents bid);
  best_ask = some (cents ask);
  bid_size = shares 50;
  ask_size = shares 20;
  question = "Will it?";
  outcome = "Yes";
  end_date = none;
}

abbrev ticks : List (Tick ℚ)
ticks = quote_at 50 52 ∷ quote_at 60 62 ∷ []

-- Buys on the first tick and sells on each later one.
abbrev swing : Strategy ℕ ℚ ℚ
swing zero ctx = (buy "yes" (cents 52) (shares 30) medium ∷ [], 1)
swing (suc n) ctx = (sell "yes" (cents 60) (shares 15) medium ∷ hold ∷ [], 1)

abbrev fresh : Backtester ℚ
fresh = new_backtester (shares 1000) (shares 0)

days : ℕ → ℕ → ℚ
days start_time end_time = one

asks-IsPriced : All (λ (tick : Tick ℚ). IsPriced tick.best_ask) ticks
unfolding lt
asks-IsPriced = (refl, (refl, tt))

fresh-IsSafe : IsSafe fresh
unfolding lt mul inv inverse new_backtester
fresh-IsSafe = (record { long = tt; whole = tt }, refl)

demo : (e : BacktestResult ℚ × Running ℕ ℚ ℚ) × (run swing days 0 ticks fresh 0 ≡ some e)
demo =
    let t = run_safe rational-IsOrdered swing days 0 ticks fresh 0 asks-IsPriced fresh-IsSafe in
    (t.0, t.1)

run_safe_example :
    (e : BacktestResult ℚ × Running ℕ ℚ ℚ) × (run swing days 0 ticks fresh 0 ≡ some e)
    × (AllValues IsLong e.0.positions
        × All IsWhole e.0.fills
        × (e.0.num_ticks ≡ 2)
        × (e.0.num_trades ≡ length e.0.fills))
run_safe_example = run_safe rational-IsOrdered swing days 0 ticks fresh 0 asks-IsPriced fresh-IsSafe

run_balances_example :
    demo.0.1.tester.balance + position_value demo.0.0.positions ≡ shares 1000 + demo.0.0.realized
run_balances_example =
    run_balances rational-IsOrdered rational-IsExact swing days 0 ticks (shares 1000) (shares 0) 0
      demo.0 demo.1

abbrev book : OrderBookSnapshot ℚ
book = snapshot (quote_at 50 52)

abbrev held : Position ℚ
held = record (empty_position "yes") { size = shares 12; avg_entry_price = cents 52 }

abbrev holding : Backtester ℚ
holding = record fresh { positions = ("yes", held) ∷ [] }

execute_buy-BuyOutcome_example :
    Returns
      (BuyOutcome "yes" (shares 30) (cents 52) (shares 20) fresh)
      (execute_signal (buy "yes" (cents 52) (shares 30) medium) (("yes", book) ∷ []) 7 fresh)
unfolding lt mul inv inverse new_backtester lookup
execute_buy-BuyOutcome_example =
    execute_buy-BuyOutcome rational-IsOrdered "yes" (cents 52) (shares 30) (cents 52) medium
      (("yes", book) ∷ []) book 7 fresh refl refl refl refl

execute_sell-SellOutcome_example :
    Returns
      (SellOutcome "yes" (shares 15) (cents 50) (shares 50) held holding)
      (execute_signal (sell "yes" (cents 50) (shares 15) medium) (("yes", book) ∷ []) 7 holding)
unfolding lt lookup
execute_sell-SellOutcome_example =
    execute_sell-SellOutcome rational-IsOrdered "yes" (cents 50) (shares 15) (cents 50) medium
      (("yes", book) ∷ []) book held 7 holding refl refl refl refl

-- 20 shares are bought at 0.52, the size on the book, and 15 of them sold at 0.60.
final_trades : Option.map (λ e. e.0.num_trades) (run swing days 0 ticks fresh 0) ≡ some 2
unfolding lt mul add neg inv inverse dec_lt new_backtester run finish run_ticks step execute_all
    execute_signal execute_buy buy_at affordable fill_buy sell_at sell_held execute_sell
    update_position updated entry_price_after realized_after check_resolutions resolve_all
    check_resolution settle lookup insert mid_price update_markets build_context start
final_trades = refl
