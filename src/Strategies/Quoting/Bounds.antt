-- ===== src/Strategies/Quoting/Bounds.antt =====
-- The sizes and prices of a quote.
use pmt.Prelude.{
  String, ◌≡◌, refl, true, arith, Bool-cases, inl, inr, All, All-append, if◌then◌else◌, Ensures,
  gives, raises, Ensures-if, leb, length, Ensures-map, sym, ◌∙◌,
}
use pmt.Numeric.{Numeric, ◌+◌, ◌-◌, ◌*◌, ◌<◌, ◌≤◌, ◌<?◌, nought}
use pmt.Numeric.Order.{IsOrdered, le_refl}
use pmt.Signal.{Signal, buy, sell, cancel, hold, shutdown, Urgency}
use pmt.Strategies.Quoting.{
  Params, Quote, raw_bid, raw_ask, make_quote, place_bid, place_ask, place,
}

module _ {D : Type 0} ⦃d : Numeric D⦄ where
  -- What a market maker sends for a position of `held`: a cancel, a bid or an ask of its token,
  -- post-only, of a positive size within the order size and what the position limit leaves, the
  -- bid at 0.01 or more and the ask at 0.99 or less.
  abbrev pub IsQuoted : Params D → String → D → Signal D → Type 0
  IsQuoted p token held (buy t price size urgency) =
      (t ≡ token)
      × (urgency ≡ Urgency.low)
      × (d.lit 1 2 ≤ price)
      × (nought < size)
      × (size ≤ p.order_size)
      × (size ≤ p.max_position - held)
      × (held < p.max_position)
  IsQuoted p token held (sell t price size urgency) =
      (t ≡ token)
      × (urgency ≡ Urgency.low)
      × (price ≤ d.lit 99 2)
      × (nought < size)
      × (size ≤ p.order_size)
      × (size ≤ p.max_position + held)
      × (p.neg_max_position < held)
  IsQuoted p token held (cancel t) = t ≡ token
  IsQuoted p token held hold = ⊥
  IsQuoted p token held (shutdown reason) = ⊥

  -- What the quote promises of its prices and sizes.
  record IsCapped (p : Params D) (held : D) (q : Quote D) : Type 0 where
    bid_low : d.lit 1 2 ≤ q.my_bid
    ask_high : q.my_ask ≤ d.lit 99 2
    buy_order : q.buy_size ≤ p.order_size
    buy_left : q.buy_size ≤ p.max_position - held
    sell_order : q.sell_size ≤ p.order_size
    sell_left : q.sell_size ≤ p.max_position + held
    buys : q.can_buy ≡ (held <? p.max_position)
    sells : q.can_sell ≡ (p.neg_max_position <? held)

  module _ (laws : IsOrdered D) where
    clamp_low : (a b : D) → a ≤ (if b <? a then a else b)
    clamp_low a b = ground (arith, le_refl laws a)

    clamp_high : (a b : D) → (if a <? b then a else b) ≤ a
    clamp_high a b = ground (arith, le_refl laws a)

    least_left : (a b : D) → (if a <? b then a else b) ≤ a
    least_left a b = clamp_high a b

    least_right : (a b : D) → (if a <? b then a else b) ≤ b
    least_right a b = elim (Bool-cases (a <? b)) [
      | inl e ↦ rw e (laws.lt_asymm a b e)
      | inr e ↦ rw e (le_refl laws b)
    ]

    make_quote-IsCapped :
        (p : Params D) (mid held : D) → Ensures (IsCapped p held) (make_quote p mid held)
    unfolding make_quote
    make_quote-IsCapped p mid held =
        Ensures-if (raw_ask p mid held - raw_bid p mid held <? p.min_edge * d.lit 2 0) (λ e. raises)
          (λ e. gives (record {
            bid_low = clamp_low (d.lit 1 2) (raw_bid p mid held);
            ask_high = clamp_high (d.lit 99 2) (raw_ask p mid held);
            buy_order = least_right (p.max_position - held) p.order_size;
            buy_left = least_left (p.max_position - held) p.order_size;
            sell_order = least_right (p.max_position + held) p.order_size;
            sell_left = least_left (p.max_position + held) p.order_size;
            buys = refl;
            sells = refl;
          }))

    place_bid-IsQuoted :
        (p : Params D) (token : String) (held : D) (q : Quote D)
        → IsCapped p held q
        → All (IsQuoted p token held) (place_bid token q)
    unfolding place_bid
    place_bid-IsQuoted p token held q c = elim (Bool-cases q.can_buy) [
      | inr e ↦ rw e tt
      | inl e ↦ elim (Bool-cases (nought <? q.buy_size)) [
        | inr n ↦ rw (e, n) tt
        | inl n ↦
            rw (e, n) ((refl, refl, c.bid_low, n, c.buy_order, c.buy_left, sym c.buys ∙ e), tt)
      ]
    ]

    place_ask-IsQuoted :
        (p : Params D) (token : String) (held : D) (q : Quote D)
        → IsCapped p held q
        → All (IsQuoted p token held) (place_ask token q)
    unfolding place_ask
    place_ask-IsQuoted p token held q c = elim (Bool-cases q.can_sell) [
      | inr e ↦ rw e tt
      | inl e ↦ elim (Bool-cases (nought <? q.sell_size)) [
        | inr n ↦ rw (e, n) tt
        | inl n ↦
            rw (e, n) ((refl, refl, c.ask_high, n, c.sell_order, c.sell_left, sym c.sells ∙ e), tt)
      ]
    ]

    pub place-IsQuoted :
        (p : Params D) (token : String) (mid held : D)
        → Ensures (λ q. All (IsQuoted p token held) (place token q)) (make_quote p mid held)
    unfolding place
    place-IsQuoted p token mid held = Ensures-map (make_quote-IsCapped p mid held) (λ q c. (
      refl,
      All-append (IsQuoted p token held) (place_bid token q) (place_ask token q)
          (place_bid-IsQuoted p token held q c) (place_ask-IsQuoted p token held q c),
    ))

  pub length-place : (token : String) (q : Quote D) → leb (length (place token q)) 3 ≡ true
  unfolding place place_bid place_ask
  length-place token q = ground arith
