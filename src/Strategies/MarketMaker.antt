-- ===== src/Strategies/MarketMaker.antt =====
-- pmstrat/pmstrat/strategies/market_maker.py: quotes around the mid price of one token.
use pmt.Prelude.{
  String, ◌≡◌, true, Option, none, some, List, [], ◌∷◌, Option-cases, inl, inr, Ensures-elim, All,
  ◌⊎◌, leb, length, refl,
}
use pmt.Numeric.{Numeric, ◌+◌, ◌/◌}
use pmt.Numeric.Order.{IsOrdered}
use pmt.Signal.{Signal, hold}
use pmt.Context.{OrderBookSnapshot, Context, book, position}
use pmt.Strategies.Quoting.{Params, Quote, size_of, make_quote, place}
use pmt.Strategies.Quoting.Bounds.{IsQuoted, place-IsQuoted, length-place}

abbrev pub token_id : String
token_id = "21742633143463906290569050155826241533067272736897614950488156847949938836455"

-- The position of the strategy's token.
abbrev pub held_size : {D F : Type 0} ⦃d : Numeric D⦄ → String → Context D F → D
held_size token ctx = size_of (position ctx token)

module _ {D : Type 0} ⦃d : Numeric D⦄ where
  abbrev pub params : Params D
  params = record {
    spread_bps = d.lit 200 0;
    skew_factor = d.lit 1 3;
    max_position = d.lit 100 0;
    neg_max_position = d.negate (d.lit 100 0);
    order_size = d.lit 10 0;
    min_edge = d.lit 5 3;
  }

  unfoldable pub send : String → Option (Quote D) → List (Signal D)
  send token none = hold ∷ []
  send token (some q) = place token q

  -- The signals for a book, with `held` shares of the token.
  unfoldable pub quote_book : String → D → Option D → Option D → List (Signal D)
  quote_book token held (some bid) (some ask) =
      send token (make_quote params ((bid + ask) / d.lit 2 0) held)
  quote_book token held _ _ = hold ∷ []

  unfoldable pub quote_token : String → D → Option (OrderBookSnapshot D) → List (Signal D)
  quote_token token held none = hold ∷ []
  quote_token token held (some b) = quote_book token held b.best_bid b.best_ask

unfoldable pub on_tick : {D F : Type 0} ⦃d : Numeric D⦄ → Context D F → List (Signal D)
on_tick ctx = quote_token token_id (held_size token_id ctx) (book ctx token_id)

-- Either nothing is quoted, or at most three signals are sent, each a cancel or a bounded order
-- of the token.
unfoldable pub IsAnswer : {D : Type 0} ⦃d : Numeric D⦄ → String → D → List (Signal D) → Type 0
IsAnswer token held signals =
    (signals ≡ hold ∷ [])
    ⊎ ((leb (length signals) 3 ≡ true) × All (IsQuoted params token held) signals)

module _ {D : Type 0} ⦃d : Numeric D⦄ (laws : IsOrdered D) where
  send-IsAnswer :
      (token : String) (mid held : D)
      → IsAnswer token held (send token (make_quote params mid held))
  unfolding send IsAnswer
  send-IsAnswer token mid held = elim (Option-cases (make_quote params mid held)) [
    | inl e ↦ rw e (inl refl)
    | inr (q, e) ↦
        rw e
          (inr (length-place token q, Ensures-elim (place-IsQuoted laws params token mid held) e))
  ]

  quote_book-IsAnswer :
      (token : String) (held : D) (bid ask : Option D)
      → IsAnswer token held (quote_book token held bid ask)
  unfolding quote_book IsAnswer
  quote_book-IsAnswer token held none ask = inl refl
  quote_book-IsAnswer token held (some bid) none = inl refl
  quote_book-IsAnswer token held (some bid) (some ask) =
      send-IsAnswer token ((bid + ask) / d.lit 2 0) held

  quote_token-IsAnswer :
      (token : String) (held : D) (b : Option (OrderBookSnapshot D))
      → IsAnswer token held (quote_token token held b)
  unfolding quote_token IsAnswer
  quote_token-IsAnswer token held none = inl refl
  quote_token-IsAnswer token held (some b) = quote_book-IsAnswer token held b.best_bid b.best_ask

  -- Over numbers with the laws of an order, a tick of the market maker either holds or sends at
  -- most three signals, which cancel the orders of its token or are post-only orders for it:
  -- bids at 0.01 or more, asks at 0.99 or less, of a positive size that is at most the order size
  -- and at most what the position limit of 100 leaves on that side.
  pub on_tick-IsAnswer :
      {F : Type 0} (ctx : Context D F) → IsAnswer token_id (held_size token_id ctx) (on_tick ctx)
  unfolding on_tick
  on_tick-IsAnswer ctx = quote_token-IsAnswer token_id (held_size token_id ctx) (book ctx token_id)
