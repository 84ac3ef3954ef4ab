-- ===== src/Backtest/Ledger/Fills.antt =====
-- The net cost of a position across a fill.
use text.Mathlib.Text.{◌==◌}
use pmt.Prelude.{
  String, ◌≡◌, sym, ap, ◌∙◌, [], ◌∷◌, arith, inl, inr, Bool-cases, Ensures, gives, Ensures->>=,
  Ensures-if,
}
use pmt.Numeric.{Numeric, ◌+◌, ◌-◌, ◌*◌, ◌<◌, ◌≤?◌, nought}
use pmt.Numeric.Order.{IsOrdered, divide_pos, le_refl}
use pmt.Numeric.Exact.{IsExact, mul-nought, mul-sub, add-nought}
use pmt.Dict.{Dict, lookup, insert, get_or, AllValues}
use pmt.Dict.Laws.{AllValues-get_or}
use pmt.Context.{Position, empty_position}
use pmt.Backtest.{updated, update_position, entry_price_after, realized_after}
use pmt.Backtest.Positions.{IsLong}
use pmt.Backtest.Ledger.{net_cost, net_costs}
use pmt.Backtest.Ledger.Group

module _ {D : Type 0} ⦃d : Numeric D⦄ (order : IsOrdered D) (exact : IsExact D) where
  net_cost-empty : (token : String) → net_cost {D = D} (empty_position token) ≡ nought
  net_cost-empty token =
      ap (λ t. t - nought) (mul-nought exact nought)
      ∙ exact.sub-eq-add-negate nought nought
      ∙ exact.add-negate_self nought

  -- Writing one position moves the total by the change of that position.
  net_costs-insert :
      (token : String) (pos : Position D) (x : D) (ps : Dict (Position D))
      → net_cost pos ≡ net_cost (get_or (empty_position token) (lookup token ps)) + x
      → net_costs (insert token pos ps) ≡ net_costs ps + x
  unfolding lookup insert
  net_costs-insert token pos x [] e =
      ap (λ t. t + nought) (e ∙ ap (λ t. t + x) (net_cost-empty token)) ∙ add-nought exact _
  net_costs-insert token pos x ((k, held) ∷ ps) e = elim (Bool-cases (k == token)) [
    | inl same ↦ rw (same) (
        ap (λ t. t + net_costs ps) (rw (same, lookup) at e)
        ∙ Group.add_right_comm exact (net_cost held) x (net_costs ps))
    | inr other ↦ rw (other) (
        ap (λ t. net_cost held + t) (net_costs-insert token pos x ps (rw (other, lookup) at e))
        ∙ sym (exact.add_assoc (net_cost held) (net_costs ps) x))
  ]

  net_cost-bought :
      (pos : Position D) (size price avg : D)
      → nought < size
      → avg * (pos.size + size) ≡ pos.avg_entry_price * pos.size + price * size
      → net_cost (updated pos size price avg) ≡ net_cost pos + price * size
  unfolding updated realized_after
  net_cost-bought pos size price avg h e =
      rw (h, e) (Group.add-sub_right_comm exact _ (price * size) pos.realized_pnl)

  flat_cost : (s a p n : D) → s ≡ nought → p * (s + n) ≡ a * s + p * n
  flat_cost s a p n e =
      ap (λ t. p * (t + n)) e
      ∙ ap (λ t. p * t) (exact.nought-add n)
      ∙ sym (
          ap (λ t. a * t + p * n) e ∙ ap (λ t. t + p * n) (mul-nought exact a) ∙ exact.nought-add _)

  -- The new average entry price times the new size is the old cost and the price paid.
  entry_price_bought :
      (pos : Position D) (size price : D)
      → IsLong pos
      → nought < size
      → Ensures
          (λ avg. avg * (pos.size + size) ≡ pos.avg_entry_price * pos.size + price * size)
          (entry_price_after pos size price)
  unfolding entry_price_after
  entry_price_bought pos size price long h = rw h (
      Ensures-if (pos.size ≤? nought)
        (λ flat. gives (
          flat_cost pos.size pos.avg_entry_price price size
            (order.le_antisymm pos.size nought (ground arith) long)))
        λ open_.
          let more : nought < pos.size + size =
            order.add_pos pos.size size (ground arith) (order.lt_asymm nought size h) in
          rw (divide_pos _ (pos.size + size) more)
            (gives (exact.div-mul_cancel _ (pos.size + size) more)))

  pub update_bought :
      (token : String) (size price : D) (ps : Dict (Position D))
      → AllValues IsLong ps
      → nought < size
      → Ensures
          (λ ps'. net_costs ps' ≡ net_costs ps + price * size)
          (update_position token size price ps)
  unfolding update_position
  update_bought token size price ps long h =
      let pos = get_or (empty_position token) (lookup token ps) in
      Ensures->>=
        (entry_price_bought pos size price
          (AllValues-get_or IsLong token (empty_position token) ps long (le_refl order nought)) h)
        λ avg e. gives (
          net_costs-insert token (updated pos size price avg) (price * size) ps
            (net_cost-bought pos size price avg h e))

  net_cost-sold :
      (pos : Position D) (size price : D)
      → nought < size
      → net_cost (updated pos (d.negate size) price pos.avg_entry_price)
        ≡ net_cost pos + d.negate (price * size)
  unfolding updated realized_after
  net_cost-sold pos size price h =
      let low = order.negate-lt_of_pos size h in
      let avg = pos.avg_entry_price in
      rw
        (
          order.lt_asymm (d.negate size) nought low,
          low,
          order.negate-negate size,
          order.add-negate pos.size size,
          mul-sub exact avg pos.size size,
          mul-sub exact size price avg,
          exact.mul_comm size price,
          exact.mul_comm size avg,
        )
        (Group.sub-sub-add exact (avg * pos.size) (avg * size) pos.realized_pnl (price * size))

  pub update_sold :
      (token : String) (size price : D) (ps : Dict (Position D))
      → nought < size
      → Ensures
          (λ ps'. net_costs ps' ≡ net_costs ps + d.negate (price * size))
          (update_position token (d.negate size) price ps)
  unfolding update_position entry_price_after
  update_sold token size price ps h =
      let pos = get_or (empty_position token) (lookup token ps) in
      rw (order.lt_asymm (d.negate size) nought (order.negate-lt_of_pos size h)) (
        gives (
          net_costs-insert token (updated pos (d.negate size) price pos.avg_entry_price)
            (d.negate (price * size)) ps (net_cost-sold pos size price h)))
