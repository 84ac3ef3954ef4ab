-- ===== src/Strategies/SpreadWatcher/Middle.antt =====
-- The bid of the spread watcher.
use pmt.Prelude.{◌≡◌, refl, Option, none, some, All, Bool-cases, inl, inr}
use pmt.Numeric.{Numeric, ◌+◌, ◌-◌, ◌*◌, ◌/◌, ◌<◌, ◌<?◌}
use pmt.Numeric.Order.{IsOrdered}
use pmt.Numeric.Exact.{IsExact}
use pmt.Signal.{Signal, buy, Urgency}
use pmt.Context.{OrderBookSnapshot, Context, book}
use pmt.Strategies.SpreadWatcher.{token, watch, watch_book, on_tick}

module _ {D : Type 0} ⦃d : Numeric D⦄ where
  -- A bid for one share in the middle of the best bid and ask, which are over 0.50 apart.
  pub record IsMiddle (o : Option (OrderBookSnapshot D)) (s : Signal D) : Type 0 where
    pub snapshot : OrderBookSnapshot D
    pub bid : D
    pub ask : D
    pub price : D
    pub in_book : o ≡ some snapshot
    pub is_bid : snapshot.best_bid ≡ some bid
    pub is_ask : snapshot.best_ask ≡ some ask
    pub wide : d.lit 50 2 < ask - bid
    pub signal : s ≡ buy token price (d.lit 1 0) Urgency.low
    pub middle : price * d.lit 2 0 ≡ bid + ask

  module _ (laws : IsOrdered D) (exact : IsExact D) where
    watch-IsMiddle :
        (b : OrderBookSnapshot D) (best_bid best_ask : Option D)
        → b.best_bid ≡ best_bid
        → b.best_ask ≡ best_ask
        → All (IsMiddle (some b)) (watch best_bid best_ask)
    unfolding watch
    watch-IsMiddle b (some bid) (some ask) h k = elim (Bool-cases (d.lit 50 2 <? ask - bid)) [
      | inl e ↦ rw e (
        record {
          snapshot = b;
          bid = bid;
          ask = ask;
          price = (bid + ask) / d.lit 2 0;
          in_book = refl;
          is_bid = h;
          is_ask = k;
          wide = e;
          signal = refl;
          middle = exact.div-mul_cancel (bid + ask) (d.lit 2 0) (laws.lit_pos 1 0);
        },
        tt,
      )
      | inr e ↦ rw e tt
    ]
    watch-IsMiddle b (some bid) none h k = tt
    watch-IsMiddle b none best_ask h k = tt

    watch_book-IsMiddle : (o : Option (OrderBookSnapshot D)) → All (IsMiddle o) (watch_book o)
    unfolding watch_book
    watch_book-IsMiddle none = tt
    watch_book-IsMiddle (some b) = watch-IsMiddle b b.best_bid b.best_ask refl refl

    -- In exact arithmetic, whatever is sent is a bid for one share of the token in the middle of the
    -- best bid and the best ask of its book, which are over 0.50 apart.
    pub on_tick-IsMiddle :
        {F : Type 0} (ctx : Context D F) → All (IsMiddle (book ctx token)) (on_tick ctx)
    unfolding on_tick
    on_tick-IsMiddle ctx = watch_book-IsMiddle (book ctx token)
