-- ===== src/Backtest/Total.antt =====
-- pmstrat/pmstrat/backtest.py: when no division by zero is raised.
use pmt.Prelude.{
  ℕ, String, ◌≡◌, refl, Option, none, some, arith, inl, inr, Option-cases, Returns, returned,
  Returns->>=, Returns-if,
}
use pmt.Numeric.{Numeric, ◌+◌, ◌*◌, ◌≤◌, ◌<◌, ◌≤?◌, ◌<?◌, nought, one, min}
use pmt.Numeric.Order.{IsOrdered, divide_pos}
use pmt.Dict.{Dict, lookup, get_or, AllValues}
use pmt.Dict.Laws.{AllValues-lookup}
use pmt.Signal.{Signal, buy, sell, cancel, hold, shutdown}
use pmt.Context.{OrderBookSnapshot, Position, empty_position}
use pmt.Backtest.{
  Books, Backtester, update_position, fill_buy, buy_at, sell_at, sell_held, execute_buy,
  execute_sell, execute_signal, affordable, entry_price_after,
}

module _ {D : Type 0} ⦃d : Numeric D⦄ where
  -- An ask, where there is one, is above zero.
  abbrev pub IsPriced : Option D → Type 0
  IsPriced none = Unit
  IsPriced (some ask) = nought < ask

  -- The slippage does not make a buy free.
  abbrev pub HasSlippage : Backtester D → Type 0
  HasSlippage b = nought ≤ b.slippage_pct

  module _ (laws : IsOrdered D) where
    pub entry_price_after_total :
        (pos : Position D) (delta price : D)
        → Returns (λ avg. Unit {0}) (entry_price_after pos delta price)
    unfolding entry_price_after
    entry_price_after_total pos delta price =
        Returns-if (nought <? delta)
          (λ more.
            Returns-if (pos.size ≤? nought) (λ flat. returned tt)
              λ open_.
                rw
                  (divide_pos _ (pos.size + delta)
                    (laws.add_pos pos.size delta (ground arith) (laws.lt_asymm nought delta more)))
                  (returned tt))
          (λ less. returned tt)

    update_position_total :
        (token : String) (delta price : D) (ps : Dict (Position D))
        → Returns (λ ps'. Unit {0}) (update_position token delta price ps)
    unfolding update_position
    update_position_total token delta price ps =
        Returns->>=
          (entry_price_after_total (get_or (empty_position token) (lookup token ps)) delta price)
          (λ avg u. returned tt)

    fill_buy_total :
        (token : String) (ask price size : D) (t : ℕ) (b : Backtester D)
        → HasSlippage b
        → Returns (λ e. HasSlippage e.0) (fill_buy token ask price size t b)
    unfolding fill_buy
    fill_buy_total token ask price size t b h =
        Returns-if (size <? one) (λ small. returned h)
          (λ big.
            Returns->>= (update_position_total token size price b.positions) (λ ps u. returned h))

    pub affordable_total :
        (price wanted balance : D)
        → nought < price
        → Returns (λ n. Unit {0}) (affordable price wanted balance)
    unfolding affordable
    affordable_total price wanted balance h =
        Returns-if (balance <? price * wanted)
          (λ short. rw (divide_pos balance price h) (returned tt)) (λ enough. returned tt)

    buy_at_total :
        (token : String) (size ask ask_size : D) (t : ℕ) (b : Backtester D)
        → nought < ask
        → HasSlippage b
        → Returns (λ e. HasSlippage e.0) (buy_at token size ask ask_size t b)
    unfolding buy_at
    buy_at_total token size ask ask_size t b priced h =
        let price = ask * (one + b.slippage_pct) in
        let above : nought < price =
          laws.mul_pos ask _ priced (laws.add_pos one b.slippage_pct laws.zero-lt-one h) in
        Returns->>= (affordable_total price (min size ask_size) b.balance above)
          (λ n u. fill_buy_total token ask price n t b h)

    sell_at_total :
        (token : String) (size bid bid_size : D) (pos : Position D) (t : ℕ) (b : Backtester D)
        → HasSlippage b
        → Returns (λ e. HasSlippage e.0) (sell_at token size bid bid_size pos t b)
    unfolding sell_at
    sell_at_total token size bid bid_size pos t b h =
        Returns-if (min (min size pos.size) bid_size <? one) (λ small. returned h)
          (λ big. Returns->>= (update_position_total token _ _ b.positions) (λ ps u. returned h))

    execute_buy_total :
        (token : String) (size : D) (book : Option (OrderBookSnapshot D)) (t : ℕ) (b : Backtester D)
        → HasSlippage b
        → ((snapshot : OrderBookSnapshot D) → book ≡ some snapshot → IsPriced snapshot.best_ask)
        → Returns (λ e. HasSlippage e.0) (execute_buy token size book t b)
    unfolding execute_buy
    execute_buy_total token size none t b h p = returned h
    execute_buy_total token size (some book) t b h p = elim (Option-cases book.best_ask) [
      | inl e ↦ rw (e, execute_buy) (returned h)
      | inr (ask, e) ↦
          rw (e, execute_buy)
            (buy_at_total token size ask book.ask_size t b (rw e at (p book refl)) h)
    ]

    sell_held_total :
        (token : String) (size bid bid_size : D) (held : Option (Position D)) (t : ℕ)
        (b : Backtester D)
        → HasSlippage b
        → Returns (λ e. HasSlippage e.0) (sell_held token size bid bid_size held t b)
    unfolding sell_held
    sell_held_total token size bid bid_size none t b h = returned h
    sell_held_total token size bid bid_size (some pos) t b h =
        Returns-if (pos.size ≤? nought) (λ flat. returned h)
          (λ open_. sell_at_total token size bid bid_size pos t b h)

    execute_sell_total :
        (token : String) (size : D) (book : Option (OrderBookSnapshot D)) (t : ℕ) (b : Backtester D)
        → HasSlippage b
        → Returns (λ e. HasSlippage e.0) (execute_sell token size book t b)
    unfolding execute_sell
    execute_sell_total token size none t b h = returned h
    execute_sell_total token size (some book) t b h = elim (Option-cases book.best_bid) [
      | inl e ↦ rw (e, execute_sell) (returned h)
      | inr (bid, e) ↦ rw (e, execute_sell) (sell_held_total token size bid book.bid_size _ t b h)
    ]

    -- No signal raises, if every ask on the books is above zero.
    pub execute_signal_total :
        (signal : Signal D) (books : Books D) (t : ℕ) (b : Backtester D)
        → HasSlippage b
        → AllValues (λ book. IsPriced book.best_ask) books
        → Returns (λ e. HasSlippage e.0) (execute_signal signal books t b)
    unfolding execute_signal
    execute_signal_total (buy token price size urgency) books t b h p =
        execute_buy_total token size (lookup token books) t b h
          (λ snapshot e. AllValues-lookup (λ book. IsPriced book.best_ask) token books p e)
    execute_signal_total (sell token price size urgency) books t b h p =
        execute_sell_total token size (lookup token books) t b h
    execute_signal_total (cancel token) books t b h p = returned h
    execute_signal_total hold books t b h p = returned h
    execute_signal_total (shutdown reason) books t b h p = returned h
