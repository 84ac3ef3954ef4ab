-- ===== src/Tests/Quoting.antt =====
-- Ticks of the market makers and of the sure bets.
use pmt.Prelude.{ℕ, String, ◌≡◌, refl, true, some, [], ◌∷◌, ◌⊎◌, All, leb, length, Ensures}
use Prim.Native.Nat.{◌+◌ as ◌+ℕ◌}
use pmt.Numeric.{◌<?◌, nought}
use pmt.Numeric.Rational.{ℚ, rational, lt, mul, inv, add, neg}
use pmt.Numeric.Rational.Fractions.{inverse}
use native.Mathlib.Decide.{dec_lt}
use pmt.Numeric.Order.{IsOrdered-IsLinear}
use pmt.Numeric.Rational.Laws.{rational-IsOrdered, rational-IsExact}
use pmt.Dict.{lookup}
use pmt.Signal.{Urgency, buy, hold}
use pmt.Context.{book, hours_until_expiry, Context, MarketInfo, empty_position}
use pmt.Backtest.Run.{snapshot}
use pmt.Strategies.Quoting as Quoting
use pmt.Strategies.Quoting.{Params, Quote, make_quote, raw_bid}
use pmt.Strategies.MarketMaker as MarketMaker
use pmt.Strategies.DynamicMarketMaker as Dynamic
use pmt.Strategies.DynamicMarketMaker.Limits.{IsMade, on_tick-IsLimited}
use pmt.Strategies.Words.{lower}
use pmt.Strategies.SpreadWatcher as Watcher
use pmt.Strategies.SpreadWatcher.Middle.{IsMiddle, on_tick-IsMiddle}
use pmt.Strategies.SureBets as SureBets
use pmt.Sort.{Sorted}
use pmt.Strategies.SureBets.Opportunities.{
  IsListed, returns_more, scan_opportunities, scan_opportunities-IsListed,
}
use pmt.Strategies.SureBets.Bets.{IsBet, on_tick-IsBet}
use pmt.Tests.Backtesting.{cents, shares, quote_at}

abbrev info : MarketInfo ℚ
info = record {
  token_id = "yes";
  question = "Will it?";
  outcome = "Yes";
  slug = "";
  end_date = some 90;
  liquidity = some (shares 20000);
}

-- A context with one token, at `bid` and two cents more, `size` of it held.
abbrev context : String → ℕ → ℕ → Context ℚ ℚ
context token bid size = record {
  timestamp = 0;
  books = (token, snapshot (quote_at bid (bid +ℕ 2))) ∷ [];
  positions = (token, record (empty_position token) { size = shares size }) ∷ [];
  markets = (token, info) ∷ [];
  total_realized_pnl = nought;
  total_unrealized_pnl = nought;
  usdc_balance = shares 1000;
}

abbrev hours : ℕ → ℚ
hours end_date = shares end_date

on_tick-IsAnswer_example :
    MarketMaker.IsAnswer MarketMaker.token_id
      (MarketMaker.held_size MarketMaker.token_id (context MarketMaker.token_id 50 95))
      (MarketMaker.on_tick (context MarketMaker.token_id 50 95))
on_tick-IsAnswer_example =
    MarketMaker.on_tick-IsAnswer rational-IsOrdered (context MarketMaker.token_id 50 95)

on_tick-IsLimited_example :
    (Dynamic.on_tick hours (context "yes" 70 5) ≡ hold ∷ [])
    ⊎ ((leb (length (Dynamic.on_tick hours (context "yes" 70 5))) 15 ≡ true)
        × All
            (IsMade hours (context "yes" 70 5) (context "yes" 70 5).markets)
            (Dynamic.on_tick hours (context "yes" 70 5)))
on_tick-IsLimited_example = on_tick-IsLimited rational-IsOrdered hours (context "yes" 70 5)

-- At 0.71, with 5 of 75 shares held, a cancel, a bid and an ask are sent.
quoted_signals : length (Dynamic.on_tick hours (context "yes" 70 5)) ≡ 3
unfolding lt mul add neg inv inverse dec_lt lookup make_quote Dynamic.on_tick Dynamic.quote_markets
    Dynamic.quote_market Dynamic.eligible_mid Dynamic.mid_in_range hours_until_expiry Quoting.place
    Quoting.place_bid Quoting.place_ask
quoted_signals = refl

-- At 0.51, which is inside the price range, the edge of 0.00765 is too small and nothing is quoted.
held_signals : Dynamic.on_tick hours (context "yes" 50 5) ≡ hold ∷ []
unfolding lt mul add neg inv inverse dec_lt lookup make_quote Dynamic.on_tick Dynamic.quote_markets
    Dynamic.quote_market Dynamic.eligible_mid Dynamic.mid_in_range hours_until_expiry
held_signals = refl

-- The bid is not clamped above: at a mid price of 0.98, with 90 shares short, it is over 1.
short_bid : (shares 1 <? raw_bid MarketMaker.params (cents 98) (neg (shares 90))) ≡ true
unfolding lt mul add neg inv inverse dec_lt
short_bid = refl

abbrev soon : ℕ → ℚ
soon end_date = shares 30

on_tick-IsBet_example :
    (SureBets.on_tick soon (context "yes" 94 5) ≡ hold ∷ [])
    ⊎ All
        (IsBet soon (context "yes" 94 5) (context "yes" 94 5).markets)
        (SureBets.on_tick soon (context "yes" 94 5))
on_tick-IsBet_example = on_tick-IsBet rational-IsOrdered soon (context "yes" 94 5)

-- At an ask of 0.96, the size on the book is bought.
sure_buy :
    SureBets.on_tick soon (context "yes" 94 5)
    ≡ buy "yes" (cents 96) (shares 20) Urgency.medium ∷ []
unfolding lt mul add neg inv inverse dec_lt lookup SureBets.on_tick SureBets.bets SureBets.bet_on
    SureBets.bet_at SureBets.order_size SureBets.with_signal SureBets.is_excluded
    SureBets.any_keyword lower hours_until_expiry
sure_buy = refl

excluded_sport : SureBets.is_excluded (lower "Lakers VS. Celtics") ≡ true
unfolding SureBets.is_excluded SureBets.any_keyword lower
excluded_sport = refl

-- A book with a bid of 0.10 and an ask of 0.90.
abbrev wide_context : Context ℚ ℚ
wide_context = record (context Watcher.token 10 5) {
  books = (Watcher.token, snapshot (quote_at 10 90)) ∷ [];
}

scan_opportunities-IsListed_example :
    Ensures
      (λ os.
        All (IsListed (λ x. x) (λ x. x) soon (context "yes" 94 5) (context "yes" 94 5).markets) os
        × Sorted (returns_more (λ x. x) (λ x. x) soon) os)
      (scan_opportunities (λ x. x) (λ x. x) soon (context "yes" 94 5))
scan_opportunities-IsListed_example =
    scan_opportunities-IsListed (λ x. x) (λ x. x) soon (IsOrdered-IsLinear rational-IsOrdered)
      (context "yes" 94 5)

on_tick-IsMiddle_example :
    All (IsMiddle (book wide_context Watcher.token)) (Watcher.on_tick wide_context)
on_tick-IsMiddle_example = on_tick-IsMiddle rational-IsOrdered rational-IsExact wide_context
