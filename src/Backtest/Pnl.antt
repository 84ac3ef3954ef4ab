-- ===== src/Backtest/Pnl.antt =====
-- pmstrat/pmstrat/backtest.py: `_realized_pnl`, `_unrealized_pnl`, `_estimate_rewards` and
-- `_is_winning_fill`.
use pmt.Prelude.{Bool, true, Option, none, some, [], ◌∷◌, if◌then◌else◌}
use pmt.Numeric.{Numeric, ◌+◌, ◌-◌, ◌*◌, ◌/◌, ◌<?◌, ◌≤?◌, nought}
use pmt.Dict.{Dict, lookup}
use pmt.Context.{OrderBookSnapshot, Position, mid_price}
use pmt.Backtest.{Books, Fill, bought, sold}

module _ {D : Type 0} ⦃d : Numeric D⦄ where
  -- `sum((f(p) for p in positions.values()), acc)`
  unfoldable pub sum_values : (Position D → D) → D → Dict (Position D) → D
  sum_values f acc [] = acc
  sum_values f acc ((token, pos) ∷ positions) = sum_values f (acc + f pos) positions

  unfoldable pub realized_pnl : Dict (Position D) → D
  realized_pnl = sum_values (λ pos. pos.realized_pnl) nought

  -- One round of the loop in `_unrealized_pnl`.
  unfoldable pub add_unrealized : Option (OrderBookSnapshot D) → Position D → D → D
  add_unrealized none pos total = total
  add_unrealized (some book) pos total =
      if pos.size ≤? nought then total else elim (mid_price book) [
        | none ↦ total
        | some mid ↦ total + pos.size * (mid - pos.avg_entry_price)
      ]

  unfoldable pub unrealized_from : Books D → D → Dict (Position D) → D
  unrealized_from books total [] = total
  unrealized_from books total ((token, pos) ∷ positions) =
      unrealized_from books (add_unrealized (lookup token books) pos total) positions

  unfoldable pub unrealized_pnl : Books D → Dict (Position D) → D
  unfolding unrealized_from
  unrealized_pnl books = unrealized_from books nought

  -- The value of the positions at their average entry prices.
  unfoldable pub position_value : Dict (Position D) → D
  position_value = sum_values (λ pos. pos.size * pos.avg_entry_price) nought

  -- `_estimate_rewards`, for a duration in days.
  unfoldable pub estimate_rewards : Dict (Position D) → D → D
  estimate_rewards positions days = position_value positions * d.lit 4 2 * days / d.lit 365 0

  unfoldable pub is_winning_fill : Fill D → Bool
  is_winning_fill fill = elim fill.side [ bought ↦ fill.price <? d.lit 100 2 | sold ↦ true ]
