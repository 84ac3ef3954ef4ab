-- ===== src/Expiring.antt =====
-- pmtrader/strategies/expiring.py: the search for near-certain outcomes of markets that end soon.
-- The numbers are floats. What the requests, the clock and the parsers of texts give are parameters.
pub mod Listed
pub mod Gain
pub mod Fuel
use Prim.Native.Nat.{◌+◌ as plus_ℕ, ◌-◌ as minus_ℕ}
use Prim.Native.String.{len, slice, ◌++◌ as append}
use text.Mathlib.Text.{◌==◌}
use pmt.Prelude.{
  ℕ, zero, suc, String, Bool, true, false, Option, none, some, List, [], ◌∷◌, ◌++◌, length, ltb,
  if◌then◌else◌, ◌>>=◌, ◌>>◌, skip_if, ◌&&◌, ◌||◌, not,
}
use pmt.Sort.{sort}
use pmt.Numeric.{Numeric, ◌+◌, ◌-◌, ◌*◌, ◌/◌, ◌<?◌, ◌≤?◌, nought, divide}

pub record ExpiringOpportunity (F : Type 0) : Type 0 where
  pub question : String
  pub outcome : String
  pub token_id : String
  pub price_pct : F
  pub end_date : String
  pub hours_until_expiry : F
  pub slug : String

-- A list, or its JSON text.
pub data TokenIds : Type 0 where
  encoded : String → TokenIds
  listed : List String → TokenIds

-- The fields of a market that the scan reads, `none` for one that is missing or null.
pub record Market : Type 0 where
  pub question : Option String
  pub end_date : Option String
  pub clob_token_ids : Option TokenIds
  pub outcomes : Option String
  pub outcome_prices : Option String
  pub active : Bool
  pub closed : Bool
  pub slug : Option String

pub record Event : Type 0 where
  pub end_date : Option String
  pub markets : List Market

-- What a parser of a text gives: a value, an error that the scan of a market catches, or another.
pub data Loaded (A : Type 0) : Type 0 where
  loaded : A → Loaded A
  caught : Loaded A
  uncaught : Loaded A

-- The parsers and the clock: `datetime.fromisoformat`, none where it raises; the hours from now, none for a time without a zone, where the subtraction raises;
-- `json.loads` of a list of texts and of a list of numbers, and `str.strip`.
pub record Parsers (F T : Type 0) : Type 0 where
  pub from_iso_format : String → Option T
  pub hours_until : T → Option F
  pub load_texts : String → Loaded (List String)
  pub load_numbers : String → Loaded (List F)
  pub strip : String → String

-- The opportunities that are added, and whether an exception has ended the scan.
pub record Found (F : Type 0) : Type 0 where
  pub added : List (ExpiringOpportunity F)
  pub failed : Bool

abbrev pub nothing : {F : Type 0} → Found F
nothing = record { added = []; failed = false }

abbrev pub failure : {F : Type 0} → Found F
failure = record { added = []; failed = true }

-- The rest of the scan is run if the first part has not failed.
abbrev pub and_then : {F : Type 0} → Found F → Found F → Found F
and_then found rest =
    if found.failed
    then found
    else record { added = found.added ++ rest.added; failed = rest.failed }

-- `value or default`
abbrev pub or_text : Option String → String → String
or_text none default = default
or_text (some text) default = if text == "" then default else text

-- `first or second` of two texts.
abbrev pub first_text : Option String → Option String → Option String
first_text none second = second
first_text (some text) second = if text == "" then second else some text

-- `dict.get(key, default)`
abbrev pub text_or : String → Option String → String
text_or default none = default
text_or default (some text) = text

abbrev pub or_date : {T : Type 0} → Option T → Option T → Option T
or_date none second = second
or_date (some t) second = some t

-- `not value`, of a text and of token ids.
abbrev pub no_text : Option String → Bool
no_text none = true
no_text (some text) = text == ""

abbrev pub no_token_ids : Option TokenIds → Bool
no_token_ids none = true
no_token_ids (some (encoded text)) = text == ""
no_token_ids (some (listed [])) = true
no_token_ids (some (listed (id ∷ ids))) = false

-- A step that may raise.
abbrev pub after : {A F : Type 0} → Loaded A → (A → Found F) → Found F
after (loaded a) k = k a
after caught k = nothing
after uncaught k = failure

abbrev pub load_token_ids : (String → Loaded (List String)) → Option TokenIds → Loaded (List String)
load_token_ids load none = caught
load_token_ids load (some (encoded text)) = load text
load_token_ids load (some (listed ids)) = loaded ids

-- The loop ends without events, or where the request has raised.
abbrev pub with_batch : {A : Type 0} → Option (List Event) → (List Event → List A) → List A
with_batch none k = []
with_batch (some []) k = []
with_batch (some (event ∷ events)) k = k (event ∷ events)

-- A "Z" at the end of a text is written as an offset.
unfoldable pub with_offset : String → String
with_offset text =
    let last = minus_ℕ (len text) 1 in
    if slice text last (len text) == "Z" then append (slice text 0 last) "+00:00" else text

module _ {F T : Type 0} ⦃f : Numeric F⦄ (parsers : Parsers F T) where
  -- `parse_end_date`
  abbrev pub parse_end_date : Option String → Option T
  parse_end_date none = none
  parse_end_date (some text) =
      if text == "" then none else parsers.from_iso_format (with_offset text)

  module _ (min_price_pct max_hours : F) where
    -- The loop over `zip(outcome_list, token_id_list, price_list)`, which ends with the shortest.
    unfoldable pub outcomes_of :
        Market → String → F → List String → List String → List F → List (ExpiringOpportunity F)
    outcomes_of market end_date hours_left (outcome ∷ outcomes) (token_id ∷ token_ids)
          (price ∷ prices) =
        let rest = outcomes_of market end_date hours_left outcomes token_ids prices in
        let price_pct = price * f.lit 100 0 in
        if min_price_pct ≤? price_pct
        then record {
          question = text_or "Unknown" market.question;
          outcome = parsers.strip outcome;
          token_id = token_id;
          price_pct = price_pct;
          end_date = end_date;
          hours_until_expiry = hours_left;
          slug = text_or "" market.slug;
        }
          ∷ rest
        else rest
    outcomes_of market end_date hours_left _ _ _ = []

    -- The `try` block: the texts of the market are parsed, the prices only if there are some.
    unfoldable pub read_market : Market → String → F → Found F
    read_market market end_date hours_left =
        after (parsers.load_texts (text_or "" market.outcomes)) (λ outcomes.
          after (load_token_ids parsers.load_texts market.clob_token_ids) (λ token_ids.
            if no_text market.outcome_prices
            then nothing
            else after (parsers.load_numbers (text_or "" market.outcome_prices)) (λ prices. record {
              added = outcomes_of market end_date hours_left outcomes token_ids prices;
              failed = false;
            })))

    -- What follows once the hours are known.
    unfoldable pub market_at : Market → String → Option F → Found F
    market_at market end_date none = failure
    market_at market end_date (some hours_left) =
        if hours_left <? f.negate (f.lit 3 0) || max_hours <? hours_left
        then nothing
        else if no_token_ids market.clob_token_ids || no_text market.outcomes
        then nothing
        else read_market market end_date hours_left

    unfoldable pub market_until : Market → Option String → Option T → Found F
    market_until market end_date_str none = nothing
    market_until market end_date_str (some end_date) =
        market_at market (or_text end_date_str "Unknown") (parsers.hours_until end_date)

    -- The body of the loop over the markets.
    unfoldable pub scan_market : Option String → Market → Found F
    scan_market event_end_date_str market =
        let end_date_str = first_text market.end_date event_end_date_str in
        if not market.active || market.closed
        then nothing
        else market_until market end_date_str
            (or_date (parse_end_date end_date_str) (parse_end_date event_end_date_str))

    unfoldable pub scan_markets : Option String → List Market → Found F
    scan_markets event_end_date_str [] = nothing
    scan_markets event_end_date_str (market ∷ markets) =
        and_then (scan_market event_end_date_str market) (scan_markets event_end_date_str markets)

    unfoldable pub scan_events : List Event → Found F
    scan_events [] = nothing
    scan_events (event ∷ events) =
        and_then (scan_markets event.end_date event.markets) (scan_events events)

    module _ (fetch : ℕ → Option (List Event)) (max_events : ℕ) where
      -- The `while` loop, on fuel, after `fetched` events and at an offset; `fetch` gives the
      -- batch at an offset, or none where the request raises.
      unfoldable pub scan_batches : ℕ → ℕ → ℕ → List (ExpiringOpportunity F)
      scan_batches zero fetched offset = []
      scan_batches (suc fuel) fetched offset =
          with_batch (if ltb fetched max_events then fetch offset else none) (λ events.
            let found = scan_events events in
            let rest = scan_batches fuel (plus_ℕ fetched (length events)) (plus_ℕ offset 100) in
            if found.failed then found.added else found.added ++ rest)

  -- The key of the sort is the hours.
  abbrev pub ends_sooner : ExpiringOpportunity F → ExpiringOpportunity F → Bool
  ends_sooner x y = x.hours_until_expiry <? y.hours_until_expiry

  unfoldable pub find_expiring_opportunities :
      F → F → (ℕ → Option (List Event)) → ℕ → List (ExpiringOpportunity F)
  find_expiring_opportunities min_price_pct max_hours fetch max_events =
      sort ends_sooner (scan_batches min_price_pct max_hours fetch max_events max_events 0 0)

pub record MaxReturn (F : Type 0) : Type 0 where
  pub max_return_pct : F
  pub hourly_rate_pct : F
  pub break_even_drop_pct : F

module _ {F : Type 0} ⦃f : Numeric F⦄ where
  abbrev pub absolute : F → F
  absolute a = if a <? nought then f.negate a else a

  unfoldable pub hourly_rate : F → F → F
  hourly_rate max_return_pct hours_left =
      if hours_left <? nought
      then max_return_pct / (absolute hours_left + f.lit 15 1)
      else if nought <? hours_left
      then max_return_pct / hours_left
      else max_return_pct

  -- `calculate_max_return`, or none where the division by a price of zero raises.
  unfoldable pub calculate_max_return : F → F → Option (MaxReturn F)
  calculate_max_return price_pct hours_left = do
    ratio ← divide (f.lit 100 0 - price_pct) price_pct
    some (record {
      max_return_pct = ratio * f.lit 100 0;
      hourly_rate_pct = hourly_rate (ratio * f.lit 100 0) hours_left;
      break_even_drop_pct = f.lit 100 0 - price_pct;
    })
