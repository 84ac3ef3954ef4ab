-- ===== src/Clob/Books.antt =====
-- The books and the markets that clob.py reads: `get_order_book_depth`, the `order_book` of both
-- clients and `sampling_markets`. `to_float` is Python's `float` of a text, none where it raises.
pub mod Ladders
use Prim.Native.Nat.{ℕ}
use Prim.Native.String.{String}
use pmt.Prelude.{Bool, Option, none, some, List, [], ◌∷◌, map, take, ◌>>=◌}
use pmt.Sort.{sort}
use pmt.Numeric.{Numeric, ◌<?◌}
use pmt.Scanner.{Token, Market, OrderBook, OrderBookLevel}

-- A level as the response has it, `none` for a key that is missing.
pub record RawLevel : Type 0 where
  pub price : Option String
  pub size : Option String

-- The object of a response, `none` for a key that is missing, or for a list that is null.
pub record RawBook : Type 0 where
  pub bids : Option (List RawLevel)
  pub asks : Option (List RawLevel)

pub record RawToken (F : Type 0) : Type 0 where
  pub outcome : Option String
  pub price : Option F
  pub token_id : Option String

pub record RawMarket (F : Type 0) : Type 0 where
  pub question : Option String
  pub tokens : Option (List (RawToken F))

-- `d.get(key, default)`
abbrev pub or_default : {A : Type 0} → A → Option A → A
or_default default none = default
or_default default (some a) = a

module _ {F : Type 0} ⦃f : Numeric F⦄ where
  abbrev pub cheaper : OrderBookLevel F → OrderBookLevel F → Bool
  cheaper a b = a.price <? b.price

  abbrev pub dearer : OrderBookLevel F → OrderBookLevel F → Bool
  dearer a b = b.price <? a.price

  module _ (to_float : String → Option F) where
    -- `OrderBookLevel(float(b["price"]), float(b["size"]))`
    unfoldable pub read_level : RawLevel → Option (OrderBookLevel F)
    read_level raw = do
      price ← raw.price
      price ← to_float price
      size ← raw.size
      size ← to_float size
      some (record { price = price; size = size })

    unfoldable pub read_levels : List RawLevel → Option (List (OrderBookLevel F))
    read_levels [] = some []
    read_levels (raw ∷ raws) = do
      level ← read_level raw
      levels ← read_levels raws
      some (level ∷ levels)

    -- The function of the data of the response, none where an exception is raised.
    unfoldable pub get_order_book_depth : Option RawBook → Option (OrderBook F)
    get_order_book_depth response = do
      raw ← response
      bids ← read_levels (or_default [] raw.bids)
      asks ← read_levels (or_default [] raw.asks)
      some (record { name = "Token"; bids = sort dearer bids; asks = sort cheaper asks })

    -- `Clob.order_book`: the levels as py_clob_client gives them.
    unfoldable pub order_book : Option RawBook → String → Option (OrderBook F)
    order_book response name = do
      book ← response
      bids ← read_levels (or_default [] book.bids)
      asks ← read_levels (or_default [] book.asks)
      some (record { name = name; bids = bids; asks = asks })

unfoldable pub read_token : {F : Type 0} → RawToken F → Token F
read_token t = record {
  outcome = or_default "?" t.outcome;
  price = t.price;
  token_id = or_default "" t.token_id;
}

unfoldable pub read_market : {F : Type 0} → RawMarket F → Market F
read_market m = record {
  question = or_default "Unknown" m.question;
  tokens = map read_token (or_default [] m.tokens);
}

-- The function of the "data" of the response.
unfoldable pub sampling_markets : {F : Type 0} → ℕ → Option (List (RawMarket F)) → List (Market F)
sampling_markets limit markets = map read_market (take limit (or_default [] markets))
