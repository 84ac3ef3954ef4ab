-- ===== src/Backtest/Ledger.antt =====
-- pmstrat/pmstrat/backtest.py: the cash and the positions together. A position's net cost is its
-- value at the average entry price less what it has realized.
pub mod Group
pub mod Fills
pub mod Resolutions
pub mod Balance
use pmt.Prelude.{[], ◌∷◌}
use pmt.Numeric.{Numeric, ◌+◌, ◌-◌, ◌*◌, nought}
use pmt.Dict.{Dict}
use pmt.Context.{Position}
use pmt.Backtest.{Backtester}

module _ {D : Type 0} ⦃d : Numeric D⦄ where
  abbrev pub net_cost : Position D → D
  net_cost pos = pos.avg_entry_price * pos.size - pos.realized_pnl

  abbrev pub net_costs : Dict (Position D) → D
  net_costs [] = nought
  net_costs ((token, pos) ∷ ps) = net_cost pos + net_costs ps

  -- The cash and the net costs together.
  abbrev pub worth : Backtester D → D
  worth b = b.balance + net_costs b.positions
