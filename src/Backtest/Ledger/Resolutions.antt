-- ===== src/Backtest/Ledger/Resolutions.antt =====
-- The cash and the net costs across a resolution.
use pmt.Prelude.{
  ◌≡◌, refl, sym, ap, ◌∙◌, Option, none, some, [], ◌∷◌, inl, inr, Bool-cases, Option-cases,
}
use pmt.Numeric.{Numeric, ◌+◌, ◌-◌, ◌*◌, ◌≤?◌, nought}
use pmt.Numeric.Order.{IsOrdered}
use pmt.Numeric.Exact.{IsExact, mul-nought, mul-sub, add-nought, add_left_comm}
use pmt.Dict.{Dict, lookup}
use pmt.Context.{OrderBookSnapshot, Position, mid_price}
use pmt.Backtest.{Books, Backtester, settle, check_resolution, resolve_all, check_resolutions}
use pmt.Backtest.Ledger.{net_cost, net_costs, worth}
use pmt.Backtest.Ledger.Group

module _ {D : Type 0} ⦃d : Numeric D⦄ (order : IsOrdered D) (exact : IsExact D) where
  -- A position that is paid out at `price` a share.
  net_cost-resolved :
      (avg size r price : D)
      → avg * nought - (r + size * (price - avg)) ≡ avg * size - r + d.negate (size * price)
  net_cost-resolved avg size r price =
      ap (λ t. t - (r + size * (price - avg))) (mul-nought exact avg)
      ∙ ap (λ t. nought - (r + t))
          (mul-sub exact size price avg ∙ ap (λ t. size * price - t) (exact.mul_comm size avg))
      ∙ Group.nought-sub-add exact (avg * size) r (size * price)

  lit-nought : d.lit 0 2 ≡ nought
  lit-nought = order.lit_scale 0 1 ∙ order.lit_scale 0 0

  lost : (avg size r : D) → avg * nought - (r + size * (d.lit 0 2 - avg)) ≡ avg * size - r
  lost avg size r =
      net_cost-resolved avg size r (d.lit 0 2)
      ∙ ap (λ t. avg * size - r + d.negate (size * t)) lit-nought
      ∙ ap (λ t. avg * size - r + d.negate t) (mul-nought exact size)
      ∙ ap (λ t. avg * size - r + t) (Group.negate-nought exact)
      ∙ add-nought exact _

  settle-worth :
      (mid : D) (pos : Position D) (balance : D)
      → let (pos', balance') = settle mid pos balance in
        balance' + net_cost pos' ≡ balance + net_cost pos
  unfolding settle
  settle-worth mid pos balance = elim (Bool-cases (d.lit 99 2 ≤? mid)) [
    | inl won ↦ rw won (
        ap (λ t. balance + pos.size * d.lit 100 2 + t)
          (net_cost-resolved pos.avg_entry_price pos.size pos.realized_pnl (d.lit 100 2))
        ∙ Group.add-add-negate_move exact balance (net_cost pos) (pos.size * d.lit 100 2))
    | inr open_ ↦ elim (Bool-cases (mid ≤? d.lit 1 2)) [
      | inl gone ↦
          rw (open_, gone)
            (ap (λ t. balance + t) (lost pos.avg_entry_price pos.size pos.realized_pnl))
      | inr kept ↦ rw (open_, kept) refl
    ]
  ]

  check_resolution-worth :
      (book : Option (OrderBookSnapshot D)) (pos : Position D) (balance : D)
      → let (pos', balance') = check_resolution book pos balance in
        balance' + net_cost pos' ≡ balance + net_cost pos
  unfolding check_resolution
  check_resolution-worth none pos balance = refl
  check_resolution-worth (some book) pos balance = elim (Bool-cases (pos.size ≤? nought)) [
    | inl flat ↦ rw flat refl
    | inr held ↦ elim (Option-cases (mid_price book)) [
      | inl e ↦ rw (held, e) refl
      | inr (mid, e) ↦ rw (held, e) (settle-worth mid pos balance)
    ]
  ]

  resolve_all-worth :
      (books : Books D) (ps : Dict (Position D)) (balance : D)
      → let (ps', balance') = resolve_all books ps balance in
        balance' + net_costs ps' ≡ balance + net_costs ps
  unfolding resolve_all
  resolve_all-worth books [] balance = refl
  resolve_all-worth books ((token, pos) ∷ ps) balance =
      let (pos', balance') = check_resolution (lookup token books) pos balance in
      let (ps', balance'') = resolve_all books ps balance' in
      add_left_comm exact balance'' (net_cost pos') (net_costs ps')
      ∙ ap (λ t. net_cost pos' + t) (resolve_all-worth books ps balance')
      ∙ add_left_comm exact (net_cost pos') balance' (net_costs ps)
      ∙ sym (exact.add_assoc balance' (net_cost pos') (net_costs ps))
      ∙ ap (λ t. t + net_costs ps) (check_resolution-worth (lookup token books) pos balance)
      ∙ exact.add_assoc balance (net_cost pos) (net_costs ps)

  -- In exact arithmetic, with the laws of an order, resolving markets on any books leaves the cash and the net costs of the
  -- positions, at their average entry prices less the realized P&L, together as they are.
  pub check_resolutions-worth :
      (books : Books D) (b : Backtester D) → worth (check_resolutions books b) ≡ worth b
  unfolding check_resolutions
  check_resolutions-worth books b = resolve_all-worth books b.positions b.balance
