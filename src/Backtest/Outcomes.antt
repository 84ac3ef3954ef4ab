-- ===== src/Backtest/Outcomes.antt =====
-- pmstrat/pmstrat/backtest.py: what one `Buy` or `Sell` does, with and without a fill.
use text.Mathlib.Text.{◌==◌}
use pmt.Prelude.{
  ℕ, String, ◌≡◌, refl, ap, ◌∙◌, none, some, List, [], ◌∷◌, ◌++◌, Returns, returned, Returns->>=,
  Returns-if, Returns-and, if◌then◌else◌, Ensures, gives, Ensures-if,
}
use pmt.Numeric.{Numeric, ◌+◌, ◌-◌, ◌*◌, ◌<◌, ◌≤◌, ◌<?◌, nought, one, min}
use pmt.Numeric.Order.{IsOrdered, le_refl, divide_pos, min-le_left, min-le_right, lt_of_lt_of_le}
use pmt.Dict.{lookup, get_or}
use pmt.Dict.Laws.{lookup-insert_self, lookup-insert_other}
use pmt.Signal.{buy, sell, Urgency}
use pmt.Context.{OrderBookSnapshot, Position, empty_position}
use pmt.Backtest.{
  Books, Backtester, Fill, Executed, bought, sold, updated, update_position, fill_buy, buy_at,
  sell_at, sell_held, execute_buy, execute_sell, execute_signal, affordable, realized_after,
}
use pmt.Backtest.Total.{HasSlippage, affordable_total, entry_price_after_total}

module _ {D : Type 0} ⦃d : Numeric D⦄ where
  abbrev held : String → Backtester D → Position D
  held token b = get_or (empty_position token) (lookup token b.positions)

  -- One position has changed by `delta` shares, and has now realized `realized`.
  pub record Moves (token : String) (delta realized : D) (b b' : Backtester D) : Type 0 where
    pub size : (held token b').size ≡ (held token b).size + delta
    pub gained : (held token b').realized_pnl ≡ realized
    pub others :
        (other : String)
        → lookup other b'.positions
          ≡ (if token == other then lookup token b'.positions else lookup other b.positions)

  -- The state after a buy with a fill.
  pub record IsBought (token : String) (size ask ask_size : D) (b b' : Backtester D) (fill : Fill D)
      : Type 0 where
    pub at_least_one : one ≤ fill.size
    pub le_signal : fill.size ≤ size
    pub le_book : fill.size ≤ ask_size
    pub price : fill.price ≡ ask * (one + b.slippage_pct)
    pub side : fill.side ≡ bought
    pub paid : b'.balance ≡ b.balance - fill.price * fill.size
    pub logged : b'.fills ≡ b.fills ++ (fill ∷ [])
    pub moved : Moves token fill.size (held token b).realized_pnl b b'

  abbrev pub BuyOutcome : String → D → D → D → Backtester D → Executed D → Type 0
  BuyOutcome token size ask ask_size b (b', none) = b' ≡ b
  BuyOutcome token size ask ask_size b (b', some fill) = IsBought token size ask ask_size b b' fill

  -- The state after a sell with a fill.
  pub record IsSold (token : String) (size bid bid_size : D) (pos : Position D)
      (b b' : Backtester D) (fill : Fill D) : Type 0 where
    pub at_least_one : one ≤ fill.size
    pub le_signal : fill.size ≤ size
    pub le_position : fill.size ≤ pos.size
    pub le_book : fill.size ≤ bid_size
    pub price : fill.price ≡ bid * (one - b.slippage_pct)
    pub side : fill.side ≡ sold
    pub received : b'.balance ≡ b.balance + fill.price * fill.size
    pub logged : b'.fills ≡ b.fills ++ (fill ∷ [])
    pub moved :
        Moves token
          (d.negate fill.size)
          (pos.realized_pnl + fill.size * (fill.price - pos.avg_entry_price))
          b
          b'

  abbrev pub SellOutcome : String → D → D → D → Position D → Backtester D → Executed D → Type 0
  SellOutcome token size bid bid_size pos b (b', none) = b' ≡ b
  SellOutcome token size bid bid_size pos b (b', some fill) =
      IsSold token size bid bid_size pos b b' fill

  module _ (laws : IsOrdered D) where
    update_position-Moves :
        (token : String) (delta price realized : D) (b : Backtester D)
        → realized_after (held token b) delta price ≡ realized
        → Returns
            (λ ps.
              (balance : D) (fills : List (Fill D))
              → Moves token delta realized b
                  (record b { balance = balance; positions = ps; fills = fills }))
            (update_position token delta price b.positions)
    unfolding update_position updated
    update_position-Moves token delta price realized b e =
        Returns->>= (entry_price_after_total laws (held token b) delta price) λ avg u.
          returned λ balance fills. record {
            size =
                ap (λ o. (get_or (empty_position token) o).size)
                  (lookup-insert_self token _ b.positions);
            gained =
                ap (λ o. (get_or (empty_position token) o).realized_pnl)
                  (lookup-insert_self token _ b.positions)
                ∙ e;
            others = λ other. lookup-insert_other token other _ b.positions;
          }

    realized_bought :
        (pos : Position D) (n price : D) → one ≤ n → realized_after pos n price ≡ pos.realized_pnl
    unfolding realized_after
    realized_bought pos n price h = rw (lt_of_lt_of_le laws nought one n laws.zero-lt-one h) refl

    realized_sold :
        (pos : Position D) (n price : D)
        → one ≤ n
        → realized_after pos (d.negate n) price
          ≡ pos.realized_pnl + n * (price - pos.avg_entry_price)
    unfolding realized_after
    realized_sold pos n price h =
        let low = laws.negate-lt_of_pos n (lt_of_lt_of_le laws nought one n laws.zero-lt-one h) in
        rw (laws.lt_asymm (d.negate n) nought low, low, laws.negate-negate n) refl

    affordable-le :
        (price wanted balance : D)
        → nought < price
        → Ensures (λ n. n ≤ wanted) (affordable price wanted balance)
    unfolding affordable
    affordable-le price wanted balance h =
        Ensures-if (balance <? price * wanted)
          (λ short.
            rw (divide_pos balance price h)
              (gives (laws.div-le_of_lt-mul balance price wanted h short)))
          (λ enough. gives (le_refl laws wanted))

    fill_buy-BuyOutcome :
        (token : String) (size ask ask_size n : D) (t : ℕ) (b : Backtester D)
        → n ≤ size
        → n ≤ ask_size
        → Returns
            (BuyOutcome token size ask ask_size b)
            (fill_buy token ask (ask * (one + b.slippage_pct)) n t b)
    unfolding fill_buy
    fill_buy-BuyOutcome token size ask ask_size n t b p q =
        Returns-if (n <? one) (λ small. returned refl)
          λ big.
            Returns->>=
              (update_position-Moves token n (ask * (one + b.slippage_pct)) _ b
                (realized_bought (held token b) n _ big))
              λ ps m. returned (record {
                at_least_one = big;
                le_signal = p;
                le_book = q;
                price = refl;
                side = refl;
                paid = refl;
                logged = refl;
                moved = m _ _;
              })

    -- Over numbers with the laws of an order, and with a slippage of zero or more, a buy on a book
    -- with a positive ask always returns. It leaves the state alone, or it fills
    -- from one share up to the signal's size and the size on the book, at the ask with slippage:
    -- the balance pays price times size, the fill is logged last, the token's position grows by
    -- the size with its realized P&L as before, and no other position changes.
    pub execute_buy-BuyOutcome :
        (token : String) (price size ask : D) (urgency : Urgency) (books : Books D)
        (book : OrderBookSnapshot D) (t : ℕ) (b : Backtester D)
        → lookup token books ≡ some book
        → book.best_ask ≡ some ask
        → nought < ask
        → HasSlippage b
        → Returns
            (BuyOutcome token size ask book.ask_size b)
            (execute_signal (buy token price size urgency) books t b)
    unfolding execute_signal execute_buy buy_at
    execute_buy-BuyOutcome token price size ask urgency books book t b found offered above slip =
        let fill_price = ask * (one + b.slippage_pct) in
        let positive : nought < fill_price =
          laws.mul_pos ask _ above (laws.add_pos one b.slippage_pct laws.zero-lt-one slip) in
        let wanted = min size book.ask_size in
        rw (found, execute_buy)
          (rw (offered, execute_buy)
            (Returns->>=
              (Returns-and (affordable-le fill_price wanted b.balance positive)
                (affordable_total laws fill_price wanted b.balance positive))
              λ n k.
                fill_buy-BuyOutcome token size ask book.ask_size n t b
                  (laws.le_trans n wanted size k.0 (min-le_left laws size book.ask_size))
                  (laws.le_trans n wanted _ k.0 (min-le_right laws size book.ask_size))))

    sell_at-SellOutcome :
        (token : String) (size bid bid_size : D) (pos : Position D) (t : ℕ) (b : Backtester D)
        → lookup token b.positions ≡ some pos
        → Returns
            (SellOutcome token size bid bid_size pos b)
            (sell_at token size bid bid_size pos t b)
    unfolding sell_at
    sell_at-SellOutcome token size bid bid_size pos t b found =
        let m = min size pos.size in
        let n = min m bid_size in
        let inner : n ≤ m = min-le_left laws m bid_size in
        let same : held token b ≡ pos = ap (λ o. get_or (empty_position token) o) found in
        Returns-if (n <? one) (λ small. returned refl)
          λ big.
            Returns->>=
              (update_position-Moves token (d.negate n) (bid * (one - b.slippage_pct)) _ b
                (rw same (realized_sold pos n _ big)))
              λ ps moved. returned (record {
                at_least_one = big;
                le_signal = laws.le_trans n m size inner (min-le_left laws size pos.size);
                le_position = laws.le_trans n m pos.size inner (min-le_right laws size pos.size);
                le_book = min-le_right laws m bid_size;
                price = refl;
                side = refl;
                received = refl;
                logged = refl;
                moved = moved _ _;
              })

    -- Over numbers with the laws of an order, a sell on a book with a bid, of a token that is
    -- held, always returns. It leaves the state
    -- alone, or it fills from one share up to the signal's size, the position and the size on the
    -- book, at the bid less slippage: the balance grows by price times size, the fill is logged
    -- last, the position falls by the size and realizes size times the gain over the average entry
    -- price, and no other position changes.
    pub execute_sell-SellOutcome :
        (token : String) (price size bid : D) (urgency : Urgency) (books : Books D)
        (book : OrderBookSnapshot D) (pos : Position D) (t : ℕ) (b : Backtester D)
        → lookup token books ≡ some book
        → book.best_bid ≡ some bid
        → lookup token b.positions ≡ some pos
        → nought < pos.size
        → Returns
            (SellOutcome token size bid book.bid_size pos b)
            (execute_signal (sell token price size urgency) books t b)
    unfolding execute_signal execute_sell sell_held
    execute_sell-SellOutcome token price size bid urgency books book pos t b found offered has
          more =
        rw (found, execute_sell)
          (rw (offered, execute_sell)
            (rw (has, sell_held)
              (rw more (sell_at-SellOutcome token size bid book.bid_size pos t b has))))
