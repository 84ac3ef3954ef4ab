-- ===== src/Tests/Exchange.antt =====
-- The client of the exchange, over a node whose contracts have two shares of every token.
use Prim.Native.Nat.{zero, suc, ◌≤◌}
use Prim.Native.String.{◌∷◌ as char_then}
use pmt.Prelude.{
  ℕ, String, false, ◌≡◌, refl, Option, none, some, List, [], ◌∷◌, take, arith, Ensures,
}
use pmt.Numeric.Rational.{ℚ, rational}
use pmt.Numeric.Order.{IsOrdered-IsLinear}
use pmt.Numeric.Rational.Laws.{rational-IsOrdered}
use pmt.Clob.Hex.{int_hex, from_digits, hex_value, width, word, normalize_condition_id}
use pmt.Clob.Hex.RoundTrip.{int_hex-word, normalize_condition_id-word}
use pmt.Clob.Session.{Response, unreachable, replied, Session}
use pmt.Clob.Rpc.{rpc_call}
use pmt.Clob.Rpc.Attempts.{IsServed, rpc_call-IsServed}
use pmt.Clob.Chain.Reads.{IsNode}
use pmt.Clob.Holdings.{Trade, positions}
use pmt.Clob.Holdings.Distinct.{firsts}
use pmt.Clob.Holdings.Ledger.{ledger, all_owned, positions-owned}
use pmt.Clob.Holdings.Cost.{positions-IsBounded}
use pmt.Clob.Books.{RawBook, RawLevel, get_order_book_depth}
use pmt.Clob.Books.Ladders.{IsLadder, get_order_book_depth-IsLadder}
use pmt.Tests.Backtesting.{cents}

int_hex-word_example :
    (width (word 3054) ≡ 64)
    × (int_hex (word 3054) ≡ some 3054)
    × (int_hex (char_then "0" (char_then "x" (word 3054))) ≡ some 3054)
int_hex-word_example = int_hex-word 3054 (omega arith)

normalize_condition_id-word_example :
    (width (normalize_condition_id "BEe") ≡ 64)
    × (int_hex (normalize_condition_id "BEe") ≡ some 3054)
    × (normalize_condition_id "0xBEe" ≡ normalize_condition_id "BEe")
unfolding from_digits hex_value width
normalize_condition_id-word_example = normalize_condition_id-word 3054 "BEe" refl (omega arith)

abbrev start : Session
start = record { sent = 0; slept = 0 }

-- The first request fails, the second is limited and the third is answered.
flaky_at : ℕ → Response
flaky_at zero = unreachable "timeout"
flaky_at (suc zero) = replied (record {
  error = some (record { message = some "Too many requests"; text = "" });
  result = none;
  text = "";
})
flaky_at (suc (suc n)) = replied (record { error = none; result = some "0x0"; text = "" })

abbrev flaky : String → String → ℕ → Response
flaky to call_data n = flaky_at n

rpc_call-IsServed_example :
    IsServed
      (flaky "to" "data")
      0
      3
      none
      (rpc_call flaky "to" "data" 3 start).0
      (rpc_call flaky "to" "data" 3 start).1
rpc_call-IsServed_example = rpc_call-IsServed flaky "to" "data" 3 start

-- Two shares of every token.
abbrev pub contract : String → String → ℕ
contract to call_data = 2000000

abbrev pub node : String → String → ℕ → Response
node to call_data n = replied (record {
  error = none;
  result = some (char_then "0" (char_then "x" (word (contract to call_data))));
  text = "";
})

pub node-IsNode : IsNode node contract
node-IsNode = record {
  bounded = λ to call_data. omega arith;
  answers = λ to call_data n. ("", refl);
}

abbrev trade : String → Trade
trade asset_id = record { asset_id = asset_id; outcome = "Yes"; market = "0xBEe" }

abbrev pub trades : List Trade
trades = trade "12" ∷ trade "7" ∷ trade "12" ∷ trade "none" ∷ []

positions-owned_example :
    (positions {F = ℚ} node "0xAbc" 150 trades start).0
    ≡ all_owned (ledger contract "0xAbc") (take 150 (firsts (λ id. false) trades))
positions-owned_example = positions-owned node-IsNode "0xAbc" 150 trades start

positions-IsBounded_example :
    ((positions {F = ℚ} flaky "0xAbc" 2 trades start).1.sent ≤ 6)
    × ((positions {F = ℚ} flaky "0xAbc" 2 trades start).1.slept ≤ 24600)
positions-IsBounded_example = positions-IsBounded ℚ flaky "0xAbc" 2 trades start

-- A price in cents, for the texts of this book.
abbrev to_float : String → Option ℚ
to_float text = some (cents (width text))

abbrev raw_level : String → RawLevel
raw_level price = record { price = some price; size = some "1" }

abbrev raw_book : RawBook
raw_book = record {
  bids = some (raw_level "aa" ∷ raw_level "aaaa" ∷ []);
  asks = some (raw_level "aaaaaaa" ∷ raw_level "aaaaa" ∷ []);
}

get_order_book_depth-IsLadder_example :
    Ensures (IsLadder to_float raw_book) (get_order_book_depth to_float (some raw_book))
get_order_book_depth-IsLadder_example =
    get_order_book_depth-IsLadder (IsOrdered-IsLinear rational-IsOrdered) to_float raw_book
