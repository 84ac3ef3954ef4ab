-- ===== src/Scanner.antt =====
-- pmtrader/strategies/scanner.py: the search for a cliff of dollar volume among the asks of a book,
-- with the data of pmtrader/polymarket/models.py. The requests for books are a parameter, `none` for
-- one that fails. The numbers are floats.
pub mod Cliffs
pub mod Complete
pub mod Continuous
use pmt.Prelude.{
  ℕ, String, Bool, Option, none, some, List, [], ◌∷◌, ◌++◌, map, take, if◌then◌else◌, ◌>>=◌, ◌>>◌,
  skip_if, ◌&&◌, ◌||◌, not,
}
use pmt.Numeric.{Numeric, ◌+◌, ◌-◌, ◌*◌, ◌/◌, ◌<?◌, ◌≤?◌, nought, divide}

pub record Token (F : Type 0) : Type 0 where
  pub outcome : String
  pub price : Option F
  pub token_id : String

pub record Market (F : Type 0) : Type 0 where
  pub question : String
  pub tokens : List (Token F)

pub record OrderBookLevel (F : Type 0) : Type 0 where
  pub price : F
  pub size : F

pub record OrderBook (F : Type 0) : Type 0 where
  pub name : String
  pub bids : List (OrderBookLevel F)
  pub asks : List (OrderBookLevel F)

-- A level with its value in dollars, price times size.
pub record ValuedLevel (F : Type 0) : Type 0 where
  pub price : F
  pub size : F
  pub value : F

pub record VolumeCliffOpportunity (F : Type 0) : Type 0 where
  pub market : Market F
  pub token : Token F
  pub price_pct : F
  pub buy_levels : List (ValuedLevel F)
  pub cliff_level : ValuedLevel F
  pub dollar_value_jump : F
  pub potential_resale_price : F

-- A result that is there is kept.
abbrev pub with_result : {A : Type 0} → Option A → List A → List A
with_result none rest = rest
with_result (some a) rest = a ∷ rest

-- The first round that returns ends the loop.
abbrev pub or_else : {A : Type 0} → Option A → Option A → Option A
or_else none other = other
or_else (some a) other = some a

module _ {F : Type 0} ⦃f : Numeric F⦄ where
  abbrev pub with_value : OrderBookLevel F → ValuedLevel F
  with_value level = record {
    price = level.price;
    size = level.size;
    value = level.price * level.size;
  }

  abbrev pub absolute : F → F
  absolute a = if a <? nought then f.negate a else a

  -- `sum(size for ...)` and `sum(price * size for ...)`, from the first level to the last.
  unfoldable pub total_from : (ValuedLevel F → F) → F → List (ValuedLevel F) → F
  total_from g total [] = total
  total_from g total (level ∷ levels) = total_from g (total + g level) levels

  -- The weighted average price, or none where the volume is zero.
  unfoldable pub average_price : List (ValuedLevel F) → Option F
  average_price levels =
      divide (total_from (λ l. l.price * l.size) nought levels)
        (total_from (λ l. l.size) nought levels)

  abbrev pub resale_price : ValuedLevel F → ValuedLevel F → F
  resale_price thin cliff =
      if thin.price <? cliff.price
      then cliff.price - f.lit 1 2
      else (thin.price + cliff.price) / f.lit 2 0

  abbrev pub is_zero : F → Bool
  is_zero a = not (a <? nought || nought <? a)

  abbrev pub price_pct_of : Option F → F
  price_pct_of none = nought
  price_pct_of (some price) = if is_zero price then nought else price * f.lit 100 0

  -- One round of the loop over the levels, or none where it continues.
  unfoldable pub cliff_at :
      Market F
      → Token F
      → F
      → F
      → List (ValuedLevel F)
      → ValuedLevel F
      → ValuedLevel F
      → Option (VolumeCliffOpportunity F)
  cliff_at market token min_volume_jump min_price_gap_cents buy_levels thin cliff = do
    skip_if (cliff.value - thin.value <? min_volume_jump)
    skip_if (absolute (cliff.price - thin.price) * f.lit 100 0 <? min_price_gap_cents)
    avg_buy_price ← average_price buy_levels
    skip_if (resale_price thin cliff ≤? avg_buy_price)
    some (record {
      market = market;
      token = token;
      price_pct = price_pct_of token.price;
      buy_levels = buy_levels;
      cliff_level = cliff;
      dollar_value_jump = cliff.value - thin.value;
      potential_resale_price = resale_price thin cliff;
    })

  -- The loop, after the levels `before` and at the level `thin`.
  unfoldable pub find_cliff :
      Market F
      → Token F
      → F
      → F
      → List (ValuedLevel F)
      → ValuedLevel F
      → List (ValuedLevel F)
      → Option (VolumeCliffOpportunity F)
  find_cliff market token jump gap before thin [] = none
  find_cliff market token jump gap before thin (cliff ∷ rest) =
      or_else (cliff_at market token jump gap (before ++ (thin ∷ [])) thin cliff)
        (find_cliff market token jump gap (before ++ (thin ∷ [])) cliff rest)

  unfoldable pub analyze_levels :
      Market F → Token F → F → F → List (ValuedLevel F) → Option (VolumeCliffOpportunity F)
  analyze_levels market token jump gap [] = none
  analyze_levels market token jump gap (thin ∷ rest) = find_cliff market token jump gap [] thin rest

  -- The first ten asks are searched. A book with fewer than two has no pair of levels.
  unfoldable pub analyze_order_book :
      Market F → Token F → OrderBook F → F → F → Option (VolumeCliffOpportunity F)
  analyze_order_book market token order_book min_volume_jump min_price_gap_cents =
      analyze_levels market token min_volume_jump min_price_gap_cents
        (map with_value (take 10 order_book.asks))

  -- The body of the loop over the tokens, or none where it continues; `fetch` requests a book.
  unfoldable pub scan_token :
      (String → String → Option (OrderBook F))
      → F
      → F
      → F
      → F
      → Market F
      → Token F
      → Option (VolumeCliffOpportunity F)
  scan_token fetch min_pct max_pct jump gap market token = do
    price ← token.price
    skip_if (not (min_pct ≤? price * f.lit 100 0 && price * f.lit 100 0 ≤? max_pct))
    order_book ← fetch token.token_id token.outcome
    analyze_order_book market token order_book jump gap

  unfoldable pub scan_tokens :
      (Token F → Option (VolumeCliffOpportunity F))
      → List (Token F)
      → List (VolumeCliffOpportunity F)
  scan_tokens scan [] = []
  scan_tokens scan (token ∷ tokens) = with_result (scan token) (scan_tokens scan tokens)

  unfoldable pub find_volume_cliff_opportunities :
      (String → String → Option (OrderBook F))
      → F
      → F
      → F
      → F
      → List (Market F)
      → List (VolumeCliffOpportunity F)
  find_volume_cliff_opportunities fetch min_pct max_pct jump gap [] = []
  find_volume_cliff_opportunities fetch min_pct max_pct jump gap (market ∷ markets) =
      scan_tokens (scan_token fetch min_pct max_pct jump gap market) market.tokens
      ++ find_volume_cliff_opportunities fetch min_pct max_pct jump gap markets
