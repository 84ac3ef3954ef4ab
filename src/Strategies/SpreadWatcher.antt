-- ===== src/Strategies/SpreadWatcher.antt =====
-- pmstrat/pmstrat/strategies/spread_watcher.py: bids in the middle of a wide spread.
pub mod Middle
use pmt.Prelude.{String, Option, none, some, List, [], ◌∷◌, if◌then◌else◌}
use pmt.Numeric.{Numeric, ◌+◌, ◌-◌, ◌/◌, ◌<?◌}
use pmt.Signal.{Signal, buy, Urgency}
use pmt.Context.{OrderBookSnapshot, Context, book}

abbrev pub token : String
token = "41583919731714354912849507182398941127545694257513505398713274521520484370640"

module _ {D : Type 0} ⦃d : Numeric D⦄ where
  unfoldable pub watch : Option D → Option D → List (Signal D)
  watch (some bid) (some ask) =
      if d.lit 50 2 <? ask - bid
      then buy token ((bid + ask) / d.lit 2 0) (d.lit 1 0) Urgency.low ∷ []
      else []
  watch _ _ = []

  unfoldable pub watch_book : Option (OrderBookSnapshot D) → List (Signal D)
  watch_book none = []
  watch_book (some b) = watch b.best_bid b.best_ask

unfoldable pub on_tick : {D F : Type 0} ⦃d : Numeric D⦄ → Context D F → List (Signal D)
on_tick ctx = watch_book (book ctx token)
