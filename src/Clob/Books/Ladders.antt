-- ===== src/Clob/Books/Ladders.antt =====
-- The order of the levels in a book of full depth.
use mathlib.Core.List.{Perm}
use pmt.Prelude.{◌≡◌, Option, some, List, [], String, Ensures, Ensures->>=, Ensures-self, gives}
use pmt.Sort.{Sorted, sort, sort-Sorted, sort-perm}
use pmt.Numeric.{Numeric}
use pmt.Numeric.Order.{IsLinear}
use pmt.Scanner.{OrderBook, OrderBookLevel}
use pmt.Clob.Books.{RawBook, or_default, cheaper, dearer, read_levels, get_order_book_depth}

module _ {F : Type 0} ⦃f : Numeric F⦄ where
  -- The ladders of the response, read and put in order: from the highest bid down, from the lowest
  -- ask up, and no level is lost or made up.
  pub record IsLadder (to_float : String → Option F) (raw : RawBook) (book : OrderBook F)
      : Type 0 where
    pub bids : List (OrderBookLevel F)
    pub asks : List (OrderBookLevel F)
    pub bids_read : read_levels to_float (or_default [] raw.bids) ≡ some bids
    pub asks_read : read_levels to_float (or_default [] raw.asks) ≡ some asks
    pub same_bids : Perm book.bids bids
    pub same_asks : Perm book.asks asks
    pub falling : Sorted dearer book.bids
    pub rising : Sorted cheaper book.asks

  module _ (laws : IsLinear F) (to_float : String → Option F) where
    open laws use {lt_asymm, le_trans}

    falling_bids : (bids : List (OrderBookLevel F)) → Sorted dearer (sort dearer bids)
    falling_bids bids =
        sort-Sorted dearer (λ a b h. lt_asymm b.price a.price h)
          (λ a b c h k. le_trans c.price b.price a.price k h) bids

    rising_asks : (asks : List (OrderBookLevel F)) → Sorted cheaper (sort cheaper asks)
    rising_asks asks =
        sort-Sorted cheaper (λ a b h. lt_asymm a.price b.price h)
          (λ a b c h k. le_trans a.price b.price c.price h k) asks

    -- Over numbers in a linear order, as floats are where none is read as NaN, a book of full depth, if it is returned, has the levels of the response and no others, the
    -- bids in falling and the asks in rising order of price.
    pub get_order_book_depth-IsLadder :
        (raw : RawBook) → Ensures (IsLadder to_float raw) (get_order_book_depth to_float (some raw))
    unfolding get_order_book_depth
    get_order_book_depth-IsLadder raw =
        Ensures->>= (Ensures-self (read_levels to_float (or_default [] raw.bids))) λ bids read_bids.
          Ensures->>= (Ensures-self (read_levels to_float (or_default [] raw.asks)))
            λ asks read_asks. gives (record {
              bids = bids;
              asks = asks;
              bids_read = read_bids;
              asks_read = read_asks;
              same_bids = sort-perm dearer bids;
              same_asks = sort-perm cheaper asks;
              falling = falling_bids bids;
              rising = rising_asks asks;
            })
