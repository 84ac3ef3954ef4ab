-- ===== src/Cli/Live.antt =====
-- `run_scan` of pmstrat/pmstrat/cli.py: the markets of the exchange that end soon, with an outcome of a high
-- price. The response, the clock and the parsers of texts are parameters.
use Prim.Native.Nat.{ℕ, zero, suc}
use pmt.Prelude.{String, Bool, Option, none, some, List, [], ◌∷◌, ◌++◌, if◌then◌else◌, ◌>>=◌, ◌||◌}
use pmt.Sort.{sort}
use pmt.Numeric.{Numeric, ◌-◌, ◌*◌, ◌<?◌, ◌≤?◌, nought, divide}
use pmt.Expiring.{Loaded, loaded, caught, uncaught, with_offset, no_text, text_or}

-- A list, its JSON text, or null.
pub data Texts : Type 0 where
  encoded : String → Texts
  listed : List String → Texts
  null : Texts

-- The fields of a market, `none` for a key that is missing.
pub record LiveMarket : Type 0 where
  pub question : Option String
  pub end_date : Option String
  pub outcomes : Option Texts
  pub outcome_prices : Option Texts

pub record LiveOpportunity (F : Type 0) : Type 0 where
  pub question : String
  pub outcome : String
  pub price_pct : F
  pub hours_left : F
  pub expected_return : F

-- `json.loads` of a list of texts or null, `none` where it raises, and `some none` for null; the hours from now until a date, `caught` where
-- the date cannot be read, and `uncaught` for one without a zone, where the subtraction raises; and `float`.
pub record LiveParsers (F : Type 0) : Type 0 where
  pub load_texts : String → Option (Option (List String))
  pub hours_until : String → Loaded F
  pub to_float : String → Option F

-- The texts or null, none where the JSON cannot be read. A missing key stands for "[]".
unfoldable pub texts_of :
    (String → Option (Option (List String))) → Option Texts → Option (Option (List String))
texts_of load none = load "[]"
texts_of load (some (encoded text)) = load text
texts_of load (some (listed texts)) = some (some texts)
texts_of load (some null) = some none

-- `outcomes[i] if i < len(outcomes) else "Unknown"`
unfoldable pub nth_outcome : ℕ → List String → String
nth_outcome i [] = "Unknown"
nth_outcome zero (outcome ∷ outcomes) = outcome
nth_outcome (suc i) (outcome ∷ outcomes) = nth_outcome i outcomes

-- The same of null, whose length raises.
unfoldable pub outcome_at : ℕ → Option (List String) → Option String
outcome_at i none = none
outcome_at i (some outcomes) = some (nth_outcome i outcomes)

-- `prices or []`
abbrev pub or_empty : Option (List String) → List String
or_empty none = []
or_empty (some prices) = prices

module _ {F : Type 0} ⦃f : Numeric F⦄ where
  -- `(100.0 - price_pct) / price_pct * 100`, none where the division raises.
  unfoldable pub expected_return : F → Option F
  expected_return price_pct = do
    ratio ← divide (f.lit 1000 1 - price_pct) price_pct
    some (ratio * f.lit 100 0)

  module _ (parsers : LiveParsers F) (min_price max_hours : F) where
    -- One price, if it can be read: none where an exception ends the scan.
    unfoldable pub at_price :
        LiveMarket → F → Option String → Option F → Option (List (LiveOpportunity F))
    at_price market hours_left outcome none = some []
    at_price market hours_left outcome (some price) =
        let price_pct = price * f.lit 100 0 in
        if min_price ≤? price_pct
        then (do
          gain ← expected_return price_pct
          name ← outcome
          some (
              record {
                question = text_or "Unknown" market.question;
                outcome = name;
                price_pct = price_pct;
                hours_left = hours_left;
                expected_return = gain;
              }
              ∷ []))
        else some []

    -- The loop over the prices, from the i-th.
    unfoldable pub scan_prices :
        LiveMarket → F → Option (List String) → ℕ → List String → Option (List (LiveOpportunity F))
    scan_prices market hours_left outcomes i [] = some []
    scan_prices market hours_left outcomes i (price ∷ prices) = do
      found ← at_price market hours_left (outcome_at i outcomes) (parsers.to_float price)
      rest ← scan_prices market hours_left outcomes (suc i) prices
      some (found ++ rest)

    unfoldable pub scan_texts :
        LiveMarket
        → F
        → Option (Option (List String))
        → Option (Option (List String))
        → Option (List (LiveOpportunity F))
    scan_texts market hours_left none prices = some []
    scan_texts market hours_left (some outcomes) none = some []
    scan_texts market hours_left (some outcomes) (some prices) =
        scan_prices market hours_left outcomes 0 (or_empty prices)

    unfoldable pub scan_hours : LiveMarket → Loaded F → Option (List (LiveOpportunity F))
    scan_hours market caught = some []
    scan_hours market uncaught = none
    scan_hours market (loaded hours_left) =
        if hours_left <? nought || max_hours <? hours_left
        then some []
        else scan_texts market hours_left (texts_of parsers.load_texts market.outcomes)
            (texts_of parsers.load_texts market.outcome_prices)

    unfoldable pub scan_market : LiveMarket → Option (List (LiveOpportunity F))
    scan_market market =
        if no_text market.end_date
        then some []
        else scan_hours market (parsers.hours_until (with_offset (text_or "" market.end_date)))

    unfoldable pub scan_markets : List LiveMarket → Option (List (LiveOpportunity F))
    scan_markets [] = some []
    scan_markets (market ∷ markets) = do
      found ← scan_market market
      rest ← scan_markets markets
      some (found ++ rest)

    abbrev pub returns_more : LiveOpportunity F → LiveOpportunity F → Bool
    returns_more x y = y.expected_return <? x.expected_return

    -- The opportunities that are listed, none where an error is shown; the response is none where the
    -- request raises.
    unfoldable pub run_scan : Option (List LiveMarket) → Option (List (LiveOpportunity F))
    run_scan response = do
      markets ← response
      opportunities ← scan_markets markets
      some (sort returns_more opportunities)
