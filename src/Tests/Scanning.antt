-- ===== src/Tests/Scanning.antt =====
-- A book of asks with a cliff at 0.96, over two thin levels.
use pmt.Prelude.{length, ℕ, ◌≡◌, refl, none, some, [], ◌∷◌, map, take, Ensures}
use mathlib.Core.Option
use native.Mathlib.Decide.{dec_lt}
use pmt.Numeric.Rational.{ℚ, rational, lt, mul, inv, add, neg}
use pmt.Numeric.Rational.Fractions.{inverse}
use pmt.Scanner.{
  Market, Token, OrderBook, OrderBookLevel, with_value, analyze_order_book, analyze_levels,
  find_cliff, cliff_at, average_price, total_from,
}
use pmt.Scanner.Complete.{analyze_order_book-none}
use pmt.Scanner.Cliffs.{IsCliff, analyze_order_book-IsCliff}
use pmt.Tests.Backtesting.{cents, shares}

abbrev pub token : Token ℚ
token = record { outcome = "Yes"; price = some (cents 93); token_id = "yes" }

abbrev pub market : Market ℚ
market = record { question = "Will it?"; tokens = token ∷ [] }

abbrev level : ℕ → ℕ → OrderBookLevel ℚ
level price size = record { price = cents price; size = shares size }

abbrev ladder : OrderBook ℚ
ladder = record { name = "Yes"; bids = []; asks = level 93 60 ∷ level 94 50 ∷ level 96 3000 ∷ [] }

analyze_order_book-IsCliff_example :
    Ensures
      (IsCliff (shares 2000) (shares 2) (map with_value (take 10 ladder.asks)))
      (analyze_order_book market token ladder (shares 2000) (shares 2))
analyze_order_book-IsCliff_example =
    analyze_order_book-IsCliff market token ladder (shares 2000) (shares 2)

-- The cliff is found after two levels.
thin_levels :
    Option.map
      (λ o. length o.buy_levels)
      (analyze_order_book market token ladder (shares 2000) (shares 2))
    ≡ some 2
unfolding lt mul add neg inv inverse dec_lt analyze_order_book analyze_levels find_cliff cliff_at
    average_price total_from
thin_levels = refl

analyze_order_book-none_example :
    cliff_at market token
      (shares 9000)
      (shares 2)
      (with_value (level 93 60) ∷ with_value (level 94 50) ∷ [])
      (with_value (level 94 50))
      (with_value (level 96 3000))
    ≡ none
unfolding lt mul add neg inv inverse dec_lt analyze_order_book analyze_levels find_cliff cliff_at
    average_price total_from
analyze_order_book-none_example =
    analyze_order_book-none market token (shares 9000) (shares 2) ladder
      (with_value (level 93 60) ∷ []) (with_value (level 94 50)) (with_value (level 96 3000)) []
      refl refl
