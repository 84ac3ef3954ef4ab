-- ===== src/Expiring/Listed.antt =====
-- Which opportunities the scan lists, in which order, and that it ends.
use Prim.Native.Nat.{◌+◌ as plus_ℕ}
use pmt.Prelude.{
  ℕ, zero, suc, String, ◌≡◌, refl, Bool, true, false, Option, none, some, List, [], ◌∷◌, ◌++◌,
  length, ltb, arith, All, All-append, Bool-cases, inl, inr, if◌then◌else◌, ◌||◌, not,
}
use pmt.Numeric.{Numeric, ◌*◌, ◌<?◌, ◌≤◌}
use pmt.Numeric.Order.{IsLinear}
use pmt.Sort.{Sorted, sort-All, sort-Sorted}
use pmt.Expiring.{
  ends_sooner, ExpiringOpportunity, Market, Event, Loaded, loaded, caught, uncaught, Parsers, Found,
  and_then, or_text, first_text, text_or, no_text, no_token_ids, after, load_token_ids, with_batch,
  outcomes_of, read_market, market_at, market_until, scan_market, scan_markets, scan_events,
  scan_batches, find_expiring_opportunities,
}

module _ {F : Type 0} ⦃f : Numeric F⦄ where
  -- An opportunity within the limits of price and time.
  pub record IsExpiring (min_price_pct max_hours : F) (o : ExpiringOpportunity F) : Type 0 where
    pub certain : min_price_pct ≤ o.price_pct
    pub recent : f.negate (f.lit 3 0) ≤ o.hours_until_expiry
    pub soon : o.hours_until_expiry ≤ max_hours

All-if :
    {A : Type 0} (P : A → Type 0) (b : Bool) (x y : List A)
    → All P x
    → All P y
    → All P (if b then x else y)
All-if P true x y h k = h
All-if P false x y h k = k

module _ {F T : Type 0} ⦃f : Numeric F⦄ (parsers : Parsers F T) where
  module _ (min_price_pct max_hours : F) where
    abbrev Fits : Found F → Type 0
    Fits found = All (IsExpiring min_price_pct max_hours) found.added

    outcomes_of-IsExpiring :
        (market : Market) (end_date : String) (hours : F) (outcomes token_ids : List String)
        (prices : List F)
        → f.negate (f.lit 3 0) ≤ hours
        → hours ≤ max_hours
        → All (IsExpiring min_price_pct max_hours) (
            outcomes_of parsers min_price_pct max_hours market end_date hours outcomes token_ids
              prices)
    unfolding outcomes_of
    outcomes_of-IsExpiring market end_date hours (o ∷ os) (t ∷ ts) (p ∷ ps) h k =
        let rest = outcomes_of-IsExpiring market end_date hours os ts ps h k in
        elim (Bool-cases (p * f.lit 100 0 <? min_price_pct)) [
          | inl e ↦ rw e rest
          | inr e ↦ rw e (record { certain = e; recent = h; soon = k }, rest)
        ]
    outcomes_of-IsExpiring market end_date hours _ _ _ h k = tt

    after-Fits :
        {A : Type 0} (l : Loaded A) (k : A → Found F) → ((a : A) → Fits (k a)) → Fits (after l k)
    after-Fits (loaded a) k h = h a
    after-Fits caught k h = tt
    after-Fits uncaught k h = tt

    if-Fits :
        (b : Bool) (x y : Found F)
        → (b ≡ true → Fits x)
        → (b ≡ false → Fits y)
        → Fits (if b then x else y)
    if-Fits true x y h k = h refl
    if-Fits false x y h k = k refl

    and_then-Fits : (x y : Found F) → Fits x → Fits y → Fits (and_then x y)
    and_then-Fits x y h k =
        if-Fits x.failed x (record { added = x.added ++ y.added; failed = y.failed }) (λ e. h)
          (λ e. All-append (IsExpiring min_price_pct max_hours) x.added y.added h k)

    read_market-Fits :
        (market : Market) (end_date : String) (hours : F)
        → f.negate (f.lit 3 0) ≤ hours
        → hours ≤ max_hours
        → Fits (read_market parsers min_price_pct max_hours market end_date hours)
    unfolding read_market
    read_market-Fits market end_date hours h k =
        after-Fits (parsers.load_texts (text_or "" market.outcomes)) _ (λ outcomes.
          after-Fits (load_token_ids parsers.load_texts market.clob_token_ids) _ (λ token_ids.
            if-Fits (no_text market.outcome_prices) _ _ (λ e. tt)
              (λ e.
                after-Fits (parsers.load_numbers (text_or "" market.outcome_prices)) _ (λ prices.
                  outcomes_of-IsExpiring market end_date hours outcomes token_ids prices h k))))

    market_at-Fits :
        (market : Market) (end_date : String) (o : Option F)
        → Fits (market_at parsers min_price_pct max_hours market end_date o)
    unfolding market_at
    market_at-Fits market end_date none = tt
    market_at-Fits market end_date (some hours) =
        if-Fits (hours <? f.negate (f.lit 3 0) || max_hours <? hours) _ _ (λ e. tt)
          (λ e.
            if-Fits (no_token_ids market.clob_token_ids || no_text market.outcomes) _ _ (λ e'. tt)
              (λ e'. read_market-Fits market end_date hours (ground arith) (ground arith)))

    market_until-Fits :
        (market : Market) (end_date_str : Option String) (o : Option T)
        → Fits (market_until parsers min_price_pct max_hours market end_date_str o)
    unfolding market_until
    market_until-Fits market end_date_str none = tt
    market_until-Fits market end_date_str (some end_date) =
        market_at-Fits market (or_text end_date_str "Unknown") (parsers.hours_until end_date)

    scan_market-Fits :
        (event_end_date_str : Option String) (market : Market)
        → Fits (scan_market parsers min_price_pct max_hours event_end_date_str market)
    unfolding scan_market
    scan_market-Fits event_end_date_str market =
        if-Fits (not market.active || market.closed) _ _ (λ e. tt)
          (λ e. market_until-Fits market (first_text market.end_date event_end_date_str) _)

    scan_markets-Fits :
        (event_end_date_str : Option String) (markets : List Market)
        → Fits (scan_markets parsers min_price_pct max_hours event_end_date_str markets)
    unfolding scan_markets
    scan_markets-Fits s [] = tt
    scan_markets-Fits s (market ∷ markets) =
        and_then-Fits _ _ (scan_market-Fits s market) (scan_markets-Fits s markets)

    scan_events-Fits :
        (events : List Event) → Fits (scan_events parsers min_price_pct max_hours events)
    unfolding scan_events
    scan_events-Fits [] = tt
    scan_events-Fits (event ∷ events) =
        and_then-Fits _ _ (scan_markets-Fits event.end_date event.markets) (scan_events-Fits events)

    with_batch-All :
        {A : Type 0} (P : A → Type 0) (o : Option (List Event)) (k : List Event → List A)
        → ((events : List Event) → All P (k events))
        → All P (with_batch o k)
    with_batch-All P none k h = tt
    with_batch-All P (some []) k h = tt
    with_batch-All P (some (event ∷ events)) k h = h (event ∷ events)

    module _ (fetch : ℕ → Option (List Event)) (max_events : ℕ) where
      scan_batches-IsExpiring :
          (fuel fetched offset : ℕ)
          → All
              (IsExpiring min_price_pct max_hours)
              (scan_batches parsers min_price_pct max_hours fetch max_events fuel fetched offset)
      unfolding scan_batches
      scan_batches-IsExpiring zero fetched offset = tt
      scan_batches-IsExpiring (suc fuel) fetched offset =
          with_batch-All (IsExpiring min_price_pct max_hours)
            (if ltb fetched max_events then fetch offset else none) _
            (λ events.
              let found = scan_events parsers min_price_pct max_hours events in
              let rest =
                scan_batches parsers min_price_pct max_hours fetch max_events fuel
                  (plus_ℕ fetched (length events)) (plus_ℕ offset 100) in
              All-if (IsExpiring min_price_pct max_hours) found.failed found.added
                (found.added ++ rest) (scan_events-Fits events)
                (All-append (IsExpiring min_price_pct max_hours) found.added rest
                  (scan_events-Fits events)
                  (scan_batches-IsExpiring fuel (plus_ℕ fetched (length events))
                    (plus_ℕ offset 100))))

  -- Over numbers in a linear order, as floats are where none is NaN, the opportunities that are found
  -- have a price of at least the limit, end between three hours
  -- ago and `max_hours` hours from now, and are listed with those that end sooner first.
  pub find_expiring_opportunities-IsExpiring :
      (laws : IsLinear F) (min_price_pct max_hours : F) (fetch : ℕ → Option (List Event))
      (max_events : ℕ)
      → All
          (IsExpiring min_price_pct max_hours)
          (find_expiring_opportunities parsers min_price_pct max_hours fetch max_events)
        × Sorted
            (ends_sooner parsers)
            (find_expiring_opportunities parsers min_price_pct max_hours fetch max_events)
  unfolding find_expiring_opportunities
  find_expiring_opportunities-IsExpiring laws min_price_pct max_hours fetch max_events =
      let found = scan_batches parsers min_price_pct max_hours fetch max_events max_events 0 0 in
      (
        sort-All (ends_sooner parsers) (IsExpiring min_price_pct max_hours) found
            (scan_batches-IsExpiring min_price_pct max_hours fetch max_events max_events 0 0),
        sort-Sorted (ends_sooner parsers)
            (λ a b. laws.lt_asymm a.hours_until_expiry b.hours_until_expiry)
            (λ a b c. laws.le_trans a.hours_until_expiry b.hours_until_expiry c.hours_until_expiry)
            found,
      )
