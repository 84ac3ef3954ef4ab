-- ===== src/Strategies/DynamicMarketMaker/Limits.antt =====
-- What the dynamic market maker sends, and how much.
use pmt.Prelude.{
  ℕ, suc, String, ◌≡◌, refl, some, [], ◌∷◌, leb, Bool-cases, Option-cases, inl, inr, ◌⊎◌, length,
  length-append, All, All-append, All-map, arith, Ensures, gives, Ensures-elim, Ensures->>=,
  Ensures-self, Ensures-skip_if, Ensures-and, true,
}
use mathlib.Core.List.{Memᴰ}
use mathlib.Core.List.Memᴰ.{head, tail}
use Prim.Native.Nat.{◌+◌ as ◌+ℕ◌, ◌*◌ as ◌*ℕ◌}
use pmt.Numeric.{Numeric, ◌+◌, ◌-◌, ◌/◌, ◌<?◌, ◌≤◌}
use pmt.Numeric.Order.{IsOrdered}
use pmt.Dict.{Dict}
use pmt.Signal.{Signal, hold, or_hold-cases}
use pmt.Context.{hours_until_expiry, MarketInfo, Context, book, position}
use pmt.Strategies.Quoting.{size_of, place}
use pmt.Strategies.Quoting.Bounds.{IsQuoted, place-IsQuoted, length-place}
use pmt.Strategies.DynamicMarketMaker.{
  params, mid_in_range, max_tokens, eligible_mid, quote_market, quote_markets, on_tick,
}

module _ {D : Type 0} ⦃d : Numeric D⦄ where
  mid_in_range-range :
      (bid ask : D)
      → Ensures (λ mid. (d.lit 20 2 ≤ mid) × (mid ≤ d.lit 80 2)) (mid_in_range bid ask)
  unfolding mid_in_range
  mid_in_range-range bid ask =
      let mid = (bid + ask) / d.lit 2 0 in
      Ensures-skip_if (mid <? d.lit 20 2) (λ low. Ensures-skip_if (d.lit 80 2 <? mid) (λ high.
        Ensures-skip_if ((ask - bid) / mid <? d.lit 2 2)
          (λ e6. Ensures-skip_if (d.lit 15 2 <? (ask - bid) / mid) (λ e7. gives (low, high)))))

module _ {D F : Type 0} ⦃d : Numeric D⦄ ⦃f : Numeric F⦄ where
  -- The signal quotes one of the markets, at a mid price within the range.
  pub record IsMade (hours : ℕ → F) (ctx : Context D F) (markets : Dict (MarketInfo F))
      (s : Signal D) : Type 0 where
    pub token : String
    pub info : MarketInfo F
    pub mid : D
    pub listed : Memᴰ (token, info) markets
    pub chosen : eligible_mid hours ctx token info ≡ some mid
    pub low : d.lit 20 2 ≤ mid
    pub high : mid ≤ d.lit 80 2
    pub quoted : IsQuoted params token (size_of (position ctx token)) s

  eligible_mid-range :
      (hours : ℕ → F) (ctx : Context D F) (token : String) (m : MarketInfo F)
      → Ensures (λ mid. (d.lit 20 2 ≤ mid) × (mid ≤ d.lit 80 2)) (eligible_mid hours ctx token m)
  unfolding eligible_mid
  eligible_mid-range hours ctx token m = Ensures->>= (Ensures-self m.liquidity) (λ liquidity e.
      Ensures-skip_if (liquidity <? f.lit 10000 0) (λ e0.
        Ensures->>= (Ensures-self (hours_until_expiry hours m)) (λ hours_left e1.
          Ensures-skip_if (hours_left <? f.lit 24 0) (λ e2.
            Ensures->>= (Ensures-self (book ctx token)) (λ b e3.
              Ensures->>= (Ensures-self b.best_bid) (λ bid e4.
                Ensures->>= (Ensures-self b.best_ask) (λ ask e5. mid_in_range-range bid ask)))))))

  module _ (laws : IsOrdered D) where
    quote_market-IsMade :
        (hours : ℕ → F) (ctx : Context D F) (token : String) (m : MarketInfo F)
        (markets : Dict (MarketInfo F))
        → Memᴰ (token, m) markets
        → Ensures
            (λ signals. (leb (length signals) 3 ≡ true) × All (IsMade hours ctx markets) signals)
            (quote_market hours ctx token m)
    unfolding quote_market
    quote_market-IsMade hours ctx token m markets listed =
        let held = size_of (position ctx token) in
        Ensures->>= (Ensures-and (Ensures-self _) (eligible_mid-range hours ctx token m))
          (λ mid chosen. Ensures->>= (place-IsQuoted laws params token mid held) (λ q quoted.
            gives (
              length-place token q,
              All-map (place token q)
                  (λ s is_quoted. record {
                    token = token;
                    info = m;
                    mid = mid;
                    listed = listed;
                    chosen = chosen.0;
                    low = chosen.1.0;
                    high = chosen.1.1;
                    quoted = is_quoted;
                  })
                  quoted,
            )))

    later :
        (hours : ℕ → F) (ctx : Context D F) (x : String × MarketInfo F)
        (markets : Dict (MarketInfo F)) (s : Signal D)
        → IsMade hours ctx markets s
        → IsMade hours ctx (x ∷ markets) s
    later hours ctx x markets s made = record {
      token = made.token;
      info = made.info;
      mid = made.mid;
      listed = tail made.listed;
      chosen = made.chosen;
      low = made.low;
      high = made.high;
      quoted = made.quoted;
    }

    quote_markets-IsMade :
        (hours : ℕ → F) (ctx : Context D F) (n : ℕ) (markets : Dict (MarketInfo F))
        → All (IsMade hours ctx markets) (quote_markets hours ctx n markets)
    unfolding quote_markets
    quote_markets-IsMade hours ctx n [] = tt
    quote_markets-IsMade hours ctx n ((token, m) ∷ markets) = elim (Bool-cases (leb max_tokens n)) [
      | inl e ↦ rw e tt
      | inr e ↦ elim (Option-cases (quote_market hours ctx token m)) [
        | inl q ↦
            rw (e, q)
              (All-map (quote_markets hours ctx n markets) (later hours ctx (token, m) markets)
                (quote_markets-IsMade hours ctx n markets))
        | inr (signals, q) ↦
            let rest = quote_markets hours ctx (suc n) markets in
            rw (e, q)
              (All-append (IsMade hours ctx ((token, m) ∷ markets)) signals rest
                (Ensures-elim
                  (quote_market-IsMade hours ctx token m ((token, m) ∷ markets) (head refl)) q).1
                (All-map rest (later hours ctx (token, m) markets)
                  (quote_markets-IsMade hours ctx (suc n) markets)))
      ]
    ]

    quote_markets-length :
        (hours : ℕ → F) (ctx : Context D F) (n : ℕ) (markets : Dict (MarketInfo F))
        → leb n max_tokens ≡ true
        → leb (length (quote_markets hours ctx n markets) +ℕ 3 *ℕ n) 15 ≡ true
    unfolding quote_markets
    quote_markets-length hours ctx n [] h = ground arith
    quote_markets-length hours ctx n ((token, m) ∷ markets) h =
        elim (Bool-cases (leb max_tokens n)) [
          | inl e ↦ rw e (ground arith)
          | inr e ↦ elim (Option-cases (quote_market hours ctx token m)) [
            | inl q ↦ rw (e, q) (quote_markets-length hours ctx n markets h)
            | inr (signals, q) ↦
                rw (e, q)
                  (let rest = quote_markets hours ctx (suc n) markets in
                    let few =
                      Ensures-elim
                        (quote_market-IsMade hours ctx token m ((token, m) ∷ markets) (head refl))
                        q in
                    let fewer =
                      quote_markets-length hours ctx (suc n) markets (ground (arith, e)) in
                    ground (arith, few.0, fewer, length-append signals rest))
          ]
        ]

    -- Over numbers with the laws of an order, a tick of the dynamic market maker either holds or
    -- sends at most 15 signals, three for each of five tokens. Each of them is for a token of the
    -- context's markets that passes the filters, with a mid price from 0.20 to 0.80: a cancel, or
    -- a post-only order, a bid at 0.01 or more or an ask at 0.99 or less, of a positive size
    -- that is at most the order size and at most what the position limit leaves on that side.
    pub on_tick-IsLimited :
        (hours : ℕ → F) (ctx : Context D F)
        → (on_tick hours ctx ≡ hold ∷ [])
          ⊎ ((leb (length (on_tick hours ctx)) 15 ≡ true)
              × All (IsMade hours ctx ctx.markets) (on_tick hours ctx))
    unfolding on_tick
    on_tick-IsLimited hours ctx =
        let signals = quote_markets hours ctx 0 ctx.markets in
        elim (or_hold-cases signals) [
          | inl e ↦ inl e
          | inr e ↦ inr (
              rw e (
                ground (arith, quote_markets-length hours ctx 0 ctx.markets refl),
                quote_markets-IsMade hours ctx 0 ctx.markets,
              ))
        ]
