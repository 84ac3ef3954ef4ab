-- ===== src/Backtest/Positions.antt =====
-- pmstrat/pmstrat/backtest.py: the sizes of positions and of fills.
use pmt.Prelude.{
  ℕ, String, ◌≡◌, refl, Option, none, some, List, [], ◌∷◌, arith, inl, inr, Option-cases,
  Bool-cases, All, All-append, Ensures, gives, Ensures->>=, Ensures-self, Ensures-if,
}
use pmt.Numeric.{Numeric, ◌+◌, ◌*◌, ◌≤◌, ◌≤?◌, ◌<?◌, nought, one, min}
use pmt.Numeric.Order.{IsOrdered, le_refl, zero-le-one, min-le_left, min-le_right}
use pmt.Dict.{Dict, lookup, get_or, AllValues}
use pmt.Dict.Laws.{AllValues-insert, AllValues-get_or}
use pmt.Signal.{Signal, buy, sell, cancel, hold, shutdown}
use pmt.Context.{OrderBookSnapshot, Position, empty_position, mid_price}
use pmt.Backtest.{
  Books, Backtester, Fill, updated, update_position, fill_buy, buy_at, sell_at, sell_held,
  execute_buy, execute_sell, execute_signal, settle, check_resolution, resolve_all,
  check_resolutions, affordable, entry_price_after,
}
use pmt.Backtest.Run.{execute_all}

module _ {D : Type 0} ⦃d : Numeric D⦄ where
  -- A position that is not short.
  abbrev pub IsLong : Position D → Type 0
  IsLong pos = nought ≤ pos.size

  abbrev pub IsWhole : Fill D → Type 0
  IsWhole fill = one ≤ fill.size

  pub record IsSound (b : Backtester D) : Type 0 where
    pub long : AllValues IsLong b.positions
    pub whole : All IsWhole b.fills

  module _ (laws : IsOrdered D) where
    update_position-IsLong :
        (token : String) (delta price : D) (ps : Dict (Position D))
        → AllValues IsLong ps
        → nought ≤ (get_or (empty_position token) (lookup token ps)).size + delta
        → Ensures (AllValues IsLong) (update_position token delta price ps)
    unfolding update_position updated
    update_position-IsLong token delta price ps h k =
        let pos = get_or (empty_position token) (lookup token ps) in
        Ensures->>= (Ensures-self (entry_price_after pos delta price))
          (λ avg e. gives (AllValues-insert IsLong token (updated pos delta price avg) ps h k))

    held_nonneg :
        (token : String) (ps : Dict (Position D))
        → AllValues IsLong ps
        → nought ≤ (get_or (empty_position token) (lookup token ps)).size
    held_nonneg token ps h = AllValues-get_or IsLong token _ ps h (le_refl laws nought)

    fill_buy-IsSound :
        (token : String) (ask price size : D) (t : ℕ) (b : Backtester D)
        → IsSound b
        → Ensures (λ e. IsSound e.0) (fill_buy token ask price size t b)
    unfolding fill_buy
    fill_buy-IsSound token ask price size t b s =
        Ensures-if (size <? one) (λ small. gives s)
          λ big.
            Ensures->>=
              (update_position-IsLong token size price b.positions s.long (
                laws.add_nonneg _ size (held_nonneg token b.positions s.long)
                  (laws.le_trans nought one size (zero-le-one laws) big)))
              λ ps h.
                gives (record { long = h; whole = All-append IsWhole b.fills _ s.whole (big, tt) })

    buy_at-IsSound :
        (token : String) (size ask ask_size : D) (t : ℕ) (b : Backtester D)
        → IsSound b
        → Ensures (λ e. IsSound e.0) (buy_at token size ask ask_size t b)
    unfolding buy_at
    buy_at-IsSound token size ask ask_size t b s =
        Ensures->>=
          (Ensures-self (affordable (ask * (one + b.slippage_pct)) (min size ask_size) b.balance))
          (λ n e. fill_buy-IsSound token ask _ n t b s)

    sell_at-IsSound :
        (token : String) (size bid bid_size : D) (pos : Position D) (t : ℕ) (b : Backtester D)
        → lookup token b.positions ≡ some pos
        → IsSound b
        → Ensures (λ e. IsSound e.0) (sell_at token size bid bid_size pos t b)
    unfolding sell_at
    sell_at-IsSound token size bid bid_size pos t b found s =
        let f = min (min size pos.size) bid_size in
        let fits : f ≤ pos.size =
          laws.le_trans f (min size pos.size) pos.size (min-le_left laws _ bid_size)
            (min-le_right laws size pos.size) in
        Ensures-if (f <? one) (λ small. gives s)
          λ big.
            Ensures->>=
              (update_position-IsLong token (d.negate f) _ b.positions s.long
                (rw (found, laws.add-negate) (laws.sub_nonneg pos.size f fits)))
              λ ps h.
                gives (record { long = h; whole = All-append IsWhole b.fills _ s.whole (big, tt) })

    sell_held-IsSound :
        (token : String) (size bid bid_size : D) (held : Option (Position D)) (t : ℕ)
        (b : Backtester D)
        → lookup token b.positions ≡ held
        → IsSound b
        → Ensures (λ e. IsSound e.0) (sell_held token size bid bid_size held t b)
    unfolding sell_held
    sell_held-IsSound token size bid bid_size none t b found s = gives s
    sell_held-IsSound token size bid bid_size (some pos) t b found s =
        Ensures-if (pos.size ≤? nought) (λ flat. gives s)
          (λ open_. sell_at-IsSound token size bid bid_size pos t b found s)

    execute_buy-IsSound :
        (token : String) (size : D) (book : Option (OrderBookSnapshot D)) (t : ℕ) (b : Backtester D)
        → IsSound b
        → Ensures (λ e. IsSound e.0) (execute_buy token size book t b)
    unfolding execute_buy
    execute_buy-IsSound token size none t b s = gives s
    execute_buy-IsSound token size (some book) t b s = elim (Option-cases book.best_ask) [
      | inl e ↦ rw (e, execute_buy) (gives s)
      | inr (ask, e) ↦ rw (e, execute_buy) (buy_at-IsSound token size ask book.ask_size t b s)
    ]

    execute_sell-IsSound :
        (token : String) (size : D) (book : Option (OrderBookSnapshot D)) (t : ℕ) (b : Backtester D)
        → IsSound b
        → Ensures (λ e. IsSound e.0) (execute_sell token size book t b)
    unfolding execute_sell
    execute_sell-IsSound token size none t b s = gives s
    execute_sell-IsSound token size (some book) t b s = elim (Option-cases book.best_bid) [
      | inl e ↦ rw (e, execute_sell) (gives s)
      | inr (bid, e) ↦
          rw (e, execute_sell) (sell_held-IsSound token size bid book.bid_size _ t b refl s)
    ]

    -- Any signal, on any books, leaves a sound state, if no division by zero is raised.
    pub execute_signal-IsSound :
        (signal : Signal D) (books : Books D) (t : ℕ) (b : Backtester D)
        → IsSound b
        → Ensures (λ e. IsSound e.0) (execute_signal signal books t b)
    unfolding execute_signal
    execute_signal-IsSound (buy token price size urgency) books t b s =
        execute_buy-IsSound token size (lookup token books) t b s
    execute_signal-IsSound (sell token price size urgency) books t b s =
        execute_sell-IsSound token size (lookup token books) t b s
    execute_signal-IsSound (cancel token) books t b s = gives s
    execute_signal-IsSound hold books t b s = gives s
    execute_signal-IsSound (shutdown reason) books t b s = gives s

    settle-IsLong :
        (mid : D) (pos : Position D) (balance : D) → IsLong pos → IsLong (settle mid pos balance).0
    unfolding settle
    settle-IsLong mid pos balance h = ground (arith, le_refl laws nought)

    check_resolution-IsLong :
        (book : Option (OrderBookSnapshot D)) (pos : Position D) (balance : D)
        → IsLong pos
        → IsLong (check_resolution book pos balance).0
    unfolding check_resolution
    check_resolution-IsLong none pos balance h = h
    check_resolution-IsLong (some book) pos balance h = elim (Bool-cases (pos.size ≤? nought)) [
      | inl e ↦ rw e h
      | inr e ↦ elim (Option-cases (mid_price book)) [
        | inl m ↦ rw (e, m) h
        | inr (mid, m) ↦ rw (e, m) (settle-IsLong mid pos balance h)
      ]
    ]

    resolve_all-IsLong :
        (books : Books D) (ps : Dict (Position D)) (balance : D)
        → AllValues IsLong ps
        → AllValues IsLong (resolve_all books ps balance).0
    unfolding resolve_all
    resolve_all-IsLong books [] balance h = tt
    resolve_all-IsLong books ((token, pos) ∷ ps) balance h =
        (check_resolution-IsLong _ pos balance h.0, resolve_all-IsLong books ps _ h.1)

    pub check_resolutions-IsSound :
        (books : Books D) (b : Backtester D) → IsSound b → IsSound (check_resolutions books b)
    unfolding check_resolutions
    check_resolutions-IsSound books b s = record {
      long = resolve_all-IsLong books b.positions b.balance s.long;
      whole = s.whole;
    }

    execute_all-IsSound :
        (signals : List (Signal D)) (books : Books D) (t : ℕ) (b : Backtester D)
        → IsSound b
        → Ensures IsSound (execute_all signals books t b)
    unfolding execute_all
    execute_all-IsSound [] books t b s = gives s
    execute_all-IsSound (signal ∷ signals) books t b s =
        Ensures->>= (execute_signal-IsSound signal books t b s)
          (λ e h. execute_all-IsSound signals books t e.0 h)
