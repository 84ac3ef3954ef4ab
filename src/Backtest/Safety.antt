-- ===== src/Backtest/Safety.antt =====
-- pmstrat/pmstrat/backtest.py: how a whole run ends.
use Prim.Native.Nat.{◌+◌ as plus_ℕ}
use native.Mathlib.Nat.{zero-add, suc-add, add-suc}
use pmt.Prelude.{
  ap, ℕ, suc, ◌≡◌, refl, some, List, [], ◌∷◌, arith, length, All, Returns, returned, Returns->>=,
  Returns-and, Returns-elim,
}
use pmt.Numeric.{Numeric}
use pmt.Numeric.Order.{IsOrdered}
use pmt.Dict.{AllValues, insert}
use pmt.Dict.Laws.{AllValues-insert}
use pmt.Signal.{Signal}
use pmt.Context.{OrderBookSnapshot}
use pmt.Backtest.{Books, Backtester, check_resolutions}
use pmt.Backtest.Run.{
  Tick, BacktestResult, Running, Strategy, snapshot, start, execute_all, step, run_ticks, finish,
  run,
}
use pmt.Backtest.Positions.{
  IsLong, IsWhole, IsSound, execute_signal-IsSound, check_resolutions-IsSound,
}
use pmt.Backtest.Total.{IsPriced, HasSlippage, execute_signal_total}

module _ {D : Type 0} ⦃d : Numeric D⦄ where
  abbrev pub IsPricedBook : OrderBookSnapshot D → Type 0
  IsPricedBook book = IsPriced book.best_ask

  -- What every signal keeps.
  abbrev pub IsSafe : Backtester D → Type 0
  IsSafe b = IsSound b × HasSlippage b

  module _ (laws : IsOrdered D) where
    execute_all-IsSafe :
        (signals : List (Signal D)) (books : Books D) (t : ℕ) (b : Backtester D)
        → IsSafe b
        → AllValues IsPricedBook books
        → Returns IsSafe (execute_all signals books t b)
    unfolding execute_all
    execute_all-IsSafe [] books t b h p = returned h
    execute_all-IsSafe (signal ∷ signals) books t b h p =
        Returns->>=
          (Returns-and (execute_signal-IsSound laws signal books t b h.0)
            (execute_signal_total laws signal books t b h.1 p))
          (λ e k. execute_all-IsSafe signals books t e.0 k p)

    check_resolutions-IsSafe :
        (books : Books D) (b : Backtester D) → IsSafe b → IsSafe (check_resolutions books b)
    check_resolutions-IsSafe books b h =
        (check_resolutions-IsSound laws books b h.0, unfold check_resolutions in h.1)

module _ {S D F : Type 0} ⦃d : Numeric D⦄ where
  -- Between two ticks of which `n` are done.
  pub record IsRunning (n : ℕ) (r : Running S D F) : Type 0 where
    pub safe : IsSafe r.tester
    pub priced : AllValues IsPricedBook r.books
    pub counted : r.num_ticks ≡ n

  module _ (laws : IsOrdered D) (strategy_fn : Strategy S D F) where
    step-IsRunning :
        (tick : Tick D) (n : ℕ) (r : Running S D F)
        → IsPriced tick.best_ask
        → IsRunning n r
        → Returns (IsRunning (suc n)) (step strategy_fn tick r)
    unfolding step
    step-IsRunning tick n r p h =
        let books = insert tick.token_id (snapshot tick) r.books in
        let priced =
          AllValues-insert IsPricedBook tick.token_id (snapshot tick) r.books h.priced p in
        Returns->>= (execute_all-IsSafe laws _ books tick.timestamp r.tester h.safe priced) λ b k.
          returned (record {
            safe = check_resolutions-IsSafe laws books b k;
            priced = priced;
            counted = ap suc h.counted;
          })

    run_ticks-IsRunning :
        (ticks : List (Tick D)) (n : ℕ) (r : Running S D F)
        → All (λ tick. IsPriced tick.best_ask) ticks
        → IsRunning n r
        → Returns (IsRunning (plus_ℕ (length ticks) n)) (run_ticks strategy_fn ticks r)
    unfolding run_ticks
    run_ticks-IsRunning [] n r p h = rw (zero-add) (returned h)
    run_ticks-IsRunning (tick ∷ ticks) n r p h =
        Returns->>= (step-IsRunning tick n r p.0 h)
          λ r' h'. rw suc-add (rw (← add-suc) (run_ticks-IsRunning ticks (suc n) r' p.1 h'))

    -- Over numbers with the laws of an order, a run over ticks whose asks are above zero never
    -- divides by zero: it ends with a result, for any strategy, if the backtester starts with a
    -- slippage of zero or more, no short position and no fill under one share. The result counts
    -- every tick, holds no short position, and lists only fills of one share or more, as many as
    -- it counts trades.
    pub run_safe :
        (days : ℕ → ℕ → D) (now : ℕ) (ticks : List (Tick D)) (b : Backtester D) (s : S)
        → All (λ tick. IsPriced tick.best_ask) ticks
        → IsSafe b
        → (e : BacktestResult D × Running S D F) × (run strategy_fn days now ticks b s ≡ some e)
          × (AllValues IsLong e.0.positions
              × All IsWhole e.0.fills
              × (e.0.num_ticks ≡ length ticks)
              × (e.0.num_trades ≡ length e.0.fills))
    unfolding run finish start
    run_safe days now ticks b s p h = Returns-elim (
        Returns->>=
          (run_ticks-IsRunning ticks 0 (start b s) p
            (record { safe = h; priced = tt; counted = refl }))
          λ r k. returned (k.safe.0.long, k.safe.0.whole, omega (arith, k.counted), refl))
