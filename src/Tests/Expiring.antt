-- ===== src/Tests/Expiring.antt =====
-- A scan of two events, the second without markets, whose market ends in an hour.
use pmt.Prelude.{
  ℕ, ◌≡◌, refl, true, false, Option, none, some, List, [], ◌∷◌, arith, All, Returns, leb,
  if◌then◌else◌,
}
use pmt.Numeric.Rational.{ℚ, rational}
use pmt.Numeric.Order.{IsOrdered-IsLinear, IsOrdered-KeepsSigns}
use pmt.Numeric.Rational.Laws.{rational-IsOrdered}
use pmt.Expiring.{
  Market, Event, Parsers, loaded, encoded, scan_batches, ends_sooner, find_expiring_opportunities,
  calculate_max_return,
}
use pmt.Expiring.Listed.{IsExpiring, find_expiring_opportunities-IsExpiring}
use pmt.Sort.{Sorted}
use pmt.Expiring.Fuel.{scan_batches_enough}
use pmt.Expiring.Gain.{IsReturn, calculate_max_return-IsReturn}
use pmt.Tests.Backtesting.{cents, shares}

abbrev parsers : Parsers ℚ ℕ
parsers = record {
  from_iso_format = λ text. some 1;
  hours_until = λ hours. some (shares hours);
  load_texts = λ text. loaded ("Yes" ∷ "No" ∷ []);
  load_numbers = λ text. loaded (cents 99 ∷ cents 1 ∷ []);
  strip = λ text. text;
}

abbrev market : Market
market = record {
  question = some "Will it?";
  end_date = none;
  clob_token_ids = some (encoded "[\"yes\", \"no\"]");
  outcomes = some "[\"Yes\", \"No\"]";
  outcome_prices = some "[\"0.99\", \"0.01\"]";
  active = true;
  closed = false;
  slug = some "will-it";
}

abbrev events : List Event
events =
    record { end_date = some "2025-01-01T00:00:00Z"; markets = market ∷ [] }
    ∷ record { end_date = none; markets = [] }
    ∷ []

abbrev fetch : ℕ → Option (List Event)
fetch offset = if leb offset 0 then some events else none

find_expiring_opportunities-IsExpiring_example :
    All
      (IsExpiring (shares 98) (shares 2))
      (find_expiring_opportunities parsers (shares 98) (shares 2) fetch 2000)
    × Sorted
        (ends_sooner parsers)
        (find_expiring_opportunities parsers (shares 98) (shares 2) fetch 2000)
find_expiring_opportunities-IsExpiring_example =
    find_expiring_opportunities-IsExpiring parsers (IsOrdered-IsLinear rational-IsOrdered)
      (shares 98) (shares 2) fetch 2000

scan_batches_enough_example :
    scan_batches parsers (shares 98) (shares 2) fetch 3 9 0 0
    ≡ scan_batches parsers (shares 98) (shares 2) fetch 3 3 0 0
scan_batches_enough_example =
    scan_batches_enough parsers (shares 98) (shares 2) fetch 3 3 9 0 0 (omega arith) (omega arith)

calculate_max_return-IsReturn_example :
    Returns IsReturn (calculate_max_return (shares 98) (shares 2))
unfolding pmt.Numeric.Rational.lt
calculate_max_return-IsReturn_example =
    calculate_max_return-IsReturn (IsOrdered-KeepsSigns rational-IsOrdered) (shares 98) (shares 2)
      refl refl refl
