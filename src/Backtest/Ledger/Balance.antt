-- ===== src/Backtest/Ledger/Balance.antt =====
-- The ledger of a whole run.
use pmt.Prelude.{
  ℕ, String, ◌≡◌, refl, sym, ap, ◌∙◌, false, Option, none, some, List, [], ◌∷◌, inl, inr,
  Option-cases, Ensures, gives, Ensures->>=, Ensures-self, Ensures-if, Ensures-and, Ensures-elim,
}
use pmt.Numeric.{Numeric, ◌+◌, ◌-◌, ◌*◌, ◌<◌, ◌≤?◌, ◌<?◌, nought, one, min}
use pmt.Numeric.Order.{IsOrdered, lt_of_lt_of_le}
use pmt.Numeric.Exact.{IsExact, add-nought}
use pmt.Dict.{Dict, lookup, insert}
use pmt.Signal.{Signal, buy, sell, cancel, hold, shutdown}
use pmt.Context.{OrderBookSnapshot, Position}
use pmt.Backtest.{
  Books, Backtester, Executed, fill_buy, buy_at, sell_at, sell_held, execute_buy, execute_sell,
  execute_signal, new_backtester, affordable,
}
use pmt.Backtest.Pnl.{sum_values, realized_pnl, position_value}
use pmt.Backtest.Run.{
  Tick, BacktestResult, Running, Strategy, snapshot, start, execute_all, step, run_ticks, finish,
  run,
}
use pmt.Backtest.Positions.{IsSound, execute_signal-IsSound, check_resolutions-IsSound}
use pmt.Backtest.Ledger.{net_cost, net_costs, worth}
use pmt.Backtest.Ledger.Fills.{update_bought, update_sold}
use pmt.Backtest.Ledger.Resolutions.{check_resolutions-worth}
use pmt.Backtest.Ledger.Group

module _ {D : Type 0} ⦃d : Numeric D⦄ where
  -- The cash and the net costs together are as before.
  abbrev Keeps : Backtester D → Executed D → Type 0
  Keeps b e = worth e.0 ≡ worth b

  -- A sound state that is worth `w`.
  abbrev IsWorth : D → Backtester D → Type 0
  IsWorth w b = IsSound b × (worth b ≡ w)

module _ {D : Type 0} ⦃d : Numeric D⦄ (order : IsOrdered D) (exact : IsExact D) where
  above_one : (size : D) → size <? one ≡ false → nought < size
  above_one size h = lt_of_lt_of_le order nought one size order.zero-lt-one h

  fill_buy-Keeps :
      (token : String) (ask price size : D) (t : ℕ) (b : Backtester D)
      → IsSound b
      → Ensures (Keeps b) (fill_buy token ask price size t b)
  unfolding fill_buy
  fill_buy-Keeps token ask price size t b s =
      Ensures-if (size <? one) (λ small. gives refl)
        λ big.
          Ensures->>=
            (update_bought order exact token size price b.positions s.long (above_one size big))
            λ ps e. gives (
              ap (λ x. b.balance - price * size + x) e
              ∙ Group.sub-add_move exact b.balance (net_costs b.positions) (price * size))

  sell_at-Keeps :
      (token : String) (size bid bid_size : D) (pos : Position D) (t : ℕ) (b : Backtester D)
      → Ensures (Keeps b) (sell_at token size bid bid_size pos t b)
  unfolding sell_at
  sell_at-Keeps token size bid bid_size pos t b =
      let f = min (min size pos.size) bid_size in
      let price = bid * (one - b.slippage_pct) in
      Ensures-if (f <? one) (λ small. gives refl)
        λ big.
          Ensures->>= (update_sold order exact token f price b.positions (above_one f big)) λ ps e.
            gives (
              ap (λ x. b.balance + price * f + x) e
              ∙ Group.add-add-negate_move exact b.balance (net_costs b.positions) (price * f))

  execute_buy-Keeps :
      (token : String) (size : D) (book : Option (OrderBookSnapshot D)) (t : ℕ) (b : Backtester D)
      → IsSound b
      → Ensures (Keeps b) (execute_buy token size book t b)
  unfolding execute_buy buy_at
  execute_buy-Keeps token size none t b s = gives refl
  execute_buy-Keeps token size (some book) t b s = elim (Option-cases book.best_ask) [
    | inl e ↦ rw (e, execute_buy) (gives refl)
    | inr (ask, e) ↦
        let price = ask * (one + b.slippage_pct) in
        rw (e, execute_buy)
          (Ensures->>= (Ensures-self (affordable price (min size book.ask_size) b.balance))
            (λ n e'. fill_buy-Keeps token ask price n t b s))
  ]

  sell_held-Keeps :
      (token : String) (size bid bid_size : D) (held : Option (Position D)) (t : ℕ)
      (b : Backtester D)
      → Ensures (Keeps b) (sell_held token size bid bid_size held t b)
  unfolding sell_held
  sell_held-Keeps token size bid bid_size none t b = gives refl
  sell_held-Keeps token size bid bid_size (some pos) t b =
      Ensures-if (pos.size ≤? nought) (λ flat. gives refl)
        (λ held. sell_at-Keeps token size bid bid_size pos t b)

  execute_sell-Keeps :
      (token : String) (size : D) (book : Option (OrderBookSnapshot D)) (t : ℕ) (b : Backtester D)
      → Ensures (Keeps b) (execute_sell token size book t b)
  unfolding execute_sell
  execute_sell-Keeps token size none t b = gives refl
  execute_sell-Keeps token size (some book) t b = elim (Option-cases book.best_bid) [
    | inl e ↦ rw (e, execute_sell) (gives refl)
    | inr (bid, e) ↦ rw (e, execute_sell) (sell_held-Keeps token size bid book.bid_size _ t b)
  ]

  execute_signal-Keeps :
      (signal : Signal D) (books : Books D) (t : ℕ) (b : Backtester D)
      → IsSound b
      → Ensures (Keeps b) (execute_signal signal books t b)
  unfolding execute_signal
  execute_signal-Keeps (buy token price size urgency) books t b s =
      execute_buy-Keeps token size (lookup token books) t b s
  execute_signal-Keeps (sell token price size urgency) books t b s =
      execute_sell-Keeps token size (lookup token books) t b
  execute_signal-Keeps (cancel token) books t b s = gives refl
  execute_signal-Keeps hold books t b s = gives refl
  execute_signal-Keeps (shutdown reason) books t b s = gives refl

  execute_all-IsWorth :
      (w : D) (signals : List (Signal D)) (books : Books D) (t : ℕ) (b : Backtester D)
      → IsWorth w b
      → Ensures (IsWorth w) (execute_all signals books t b)
  unfolding execute_all
  execute_all-IsWorth w [] books t b h = gives h
  execute_all-IsWorth w (signal ∷ signals) books t b h =
      Ensures->>=
        (Ensures-and (execute_signal-IsSound order signal books t b h.0)
          (execute_signal-Keeps signal books t b h.0))
        λ e k. execute_all-IsWorth w signals books t e.0 (k.0, k.1 ∙ h.1)

  net_plus : (n r a y v : D) → v ≡ a → n + r + v ≡ n + (a - y) + (r + y)
  net_plus n r a y v e =
      ap (λ t. n + r + t) e
      ∙ sym (
          exact.add_assoc n (a - y) (r + y)
          ∙ ap (λ t. n + t) (Group.sub-add_move exact a r y ∙ exact.add_comm a r)
          ∙ sym (exact.add_assoc n r a))

  -- The value of the positions is their net cost and what they have realized.
  sum_values-net :
      (ps : Dict (Position D)) (v n r : D)
      → v ≡ n + r
      → sum_values (λ pos. pos.size * pos.avg_entry_price) v ps
        ≡ n + net_costs ps + sum_values (λ pos. pos.realized_pnl) r ps
  unfolding sum_values
  sum_values-net [] v n r e = e ∙ ap (λ t. t + r) (sym (add-nought exact n))
  sum_values-net ((token, pos) ∷ ps) v n r e =
      sum_values-net ps _ (n + net_cost pos) (r + pos.realized_pnl) (
        ap (λ t. t + pos.size * pos.avg_entry_price) e
        ∙ net_plus n r (pos.avg_entry_price * pos.size) pos.realized_pnl _ (exact.mul_comm _ _))
      ∙ ap (λ t. t + sum_values (λ pos. pos.realized_pnl) (r + pos.realized_pnl) ps)
          (exact.add_assoc n (net_cost pos) (net_costs ps))

  balance-position_value :
      (w balance : D) (ps : Dict (Position D))
      → balance + net_costs ps ≡ w
      → balance + position_value ps ≡ w + realized_pnl ps
  unfolding position_value realized_pnl
  balance-position_value w balance ps e =
      ap (λ t. balance + t)
        (sum_values-net ps nought nought nought (sym (exact.nought-add nought))
          ∙ ap (λ t. t + realized_pnl ps) (exact.nought-add (net_costs ps)))
      ∙ sym (exact.add_assoc balance (net_costs ps) (realized_pnl ps))
      ∙ ap (λ t. t + realized_pnl ps) e

module _ {S D F : Type 0} ⦃d : Numeric D⦄ (order : IsOrdered D) (exact : IsExact D)
    (strategy_fn : Strategy S D F) where
  step-IsWorth :
      (w : D) (tick : Tick D) (r : Running S D F)
      → IsWorth w r.tester
      → Ensures (λ r'. IsWorth w r'.tester) (step strategy_fn tick r)
  unfolding step
  step-IsWorth w tick r h =
      let books = insert tick.token_id (snapshot tick) r.books in
      Ensures->>= (execute_all-IsWorth order exact w _ books tick.timestamp r.tester h) λ b k.
        gives (
          check_resolutions-IsSound order books b k.0,
          check_resolutions-worth order exact books b ∙ k.1,
        )

  run_ticks-IsWorth :
      (w : D) (ticks : List (Tick D)) (r : Running S D F)
      → IsWorth w r.tester
      → Ensures (λ r'. IsWorth w r'.tester) (run_ticks strategy_fn ticks r)
  unfolding run_ticks
  run_ticks-IsWorth w [] r h = gives h
  run_ticks-IsWorth w (tick ∷ ticks) r h =
      Ensures->>= (step-IsWorth w tick r h) (λ r' k. run_ticks-IsWorth w ticks r' k)

  -- In exact arithmetic, with the laws of an order, the books of a run that ends with a result
  -- balance, whatever the strategy and the ticks: the cash that is left and the open positions at their average entry prices are together the initial
  -- balance and the realized P&L that the result reports.
  pub run_balances :
      (days : ℕ → ℕ → D) (now : ℕ) (ticks : List (Tick D)) (initial slippage_bps : D) (s : S)
      (e : BacktestResult D × Running S D F)
      → run strategy_fn days now ticks (new_backtester initial slippage_bps) s ≡ some e
      → e.1.tester.balance + position_value e.0.positions ≡ initial + e.0.realized
  unfolding run finish start new_backtester
  run_balances days now ticks initial slippage_bps s e ran =
      let fresh = new_backtester initial slippage_bps in
      Ensures-elim
        {P = λ e. e.1.tester.balance + position_value e.0.positions ≡ initial + e.0.realized}
        (Ensures->>=
          (run_ticks-IsWorth initial ticks (start fresh s)
            (record { long = tt; whole = tt }, add-nought exact initial))
          λ r k.
            gives
              (balance-position_value order exact initial r.tester.balance r.tester.positions k.1))
        ran
