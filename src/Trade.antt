-- ===== src/Trade.antt =====
-- pmtrader/trade.py: the dialogues that place and cancel orders. What the user types is an argument, and
-- what the exchange answers to a call a parameter; what is shown is left out but for the outcome.
pub mod Guards
use Prim.Native.Nat.{ℕ, zero, suc, ◌-◌}
use Prim.Native.String.{String}
use text.Mathlib.Text.{◌==◌}
use pmt.Prelude.{Bool, true, false, not, Option, none, some, List, [], ◌++◌, if◌then◌else◌, ◌&&◌}
use mathlib.Core.List.{◌∷◌ as cons}
use pmt.Numeric.{Numeric, ◌<?◌, ◌≤?◌, nought, one}
use pmt.Strategies.Words.{lower}
use pmt.Clob.Hex.{Integer, natural, negative, to_int}
use pmt.Clob.Orders.{Call, cancels, cancels_all, post_order, market_order}

-- What `float` reads from a text: a number, infinite ones among them, or NaN.
pub data Float (F : Type 0) : Type 0 where
  number : F → Float F
  nan : Float F

-- The two choices of the prompt for a side.
pub data Side : Type 0 where
  buy sell : Side

abbrev pub side_text : Side → String
side_text buy = "BUY"
side_text sell = "SELL"

-- What the user is told at the end of a dialogue.
pub data Notice : Type 0 where
  price_out_of_range invalid_price size_not_positive invalid_size : Notice
  amount_not_positive invalid_amount cancelled invalid_number no_orders error done nothing : Notice

-- The calls that a dialogue has made, and its outcome.
pub record Dialogue (F : Type 0) : Type 0 where
  pub calls : List (Call F)
  pub notice : Notice

abbrev pub says : {F : Type 0} → Notice → Dialogue F
says notice = record { calls = []; notice = notice }

-- A call, which the exchange takes or refuses with an exception.
abbrev pub making : {F : Type 0} → (Call F → Bool) → Call F → Dialogue F
making takes call = record { calls = cons call []; notice = if takes call then done else error }

-- `orders[n]`
unfoldable pub order_at : {A : Type 0} → ℕ → List A → Option A
order_at n [] = none
order_at zero (List.◌∷◌ order orders) = some order
order_at (suc n) (List.◌∷◌ order orders) = order_at n orders

-- An order of the exchange, of which each field may be missing.
pub record OpenOrder : Type 0 where
  pub id : Option String
  pub price : Option String
  pub size : Option String

-- What the user types where there are orders to cancel.
pub record CancelAnswers : Type 0 where
  pub cancel_one : Bool
  pub choice : String
  pub cancel_every : Bool

pub record LimitAnswers : Type 0 where
  pub price : String
  pub size : String
  pub confirmed : Bool

pub record MarketAnswers : Type 0 where
  pub amount : String
  pub confirmed : Bool

-- One round of the loop of `main`, with what is typed in it; the other choices make no call.
pub data Action : Type 0 where
  exit : Action
  show : Action
  limit : String → Side → LimitAnswers → Action
  market : String → Side → MarketAnswers → Action
  open_orders : Option (List OpenOrder) → CancelAnswers → Action

module _ {F : Type 0} ⦃f : Numeric F⦄ where
  -- `a < b` and `a <= b`, which are false where one of the two is NaN.
  abbrev pub is_less : Float F → Float F → Bool
  is_less (number a) (number b) = a <? b
  is_less _ _ = false

  abbrev pub is_at_most : Float F → Float F → Bool
  is_at_most (number a) (number b) = a ≤? b
  is_at_most _ _ = false

module _ {F : Type 0} ⦃f : Numeric F⦄ (to_float : String → Option (Float F))
    (takes : Call (Float F) → Bool) where
  unfoldable pub confirm_limit : String → Side → Float F → Float F → Bool → Dialogue (Float F)
  confirm_limit token_id side price size confirmed =
      if confirmed
      then making takes (post_order token_id price size (side_text side) "GTC")
      else says cancelled

  unfoldable pub ask_size : String → Side → Float F → Option (Float F) → Bool → Dialogue (Float F)
  ask_size token_id side price none confirmed = says invalid_size
  ask_size token_id side price (some size) confirmed =
      if is_at_most size (number nought)
      then says size_not_positive
      else confirm_limit token_id side price size confirmed

  unfoldable pub ask_price : String → Side → Option (Float F) → LimitAnswers → Dialogue (Float F)
  ask_price token_id side none answers = says invalid_price
  ask_price token_id side (some price) answers =
      if not (is_less (number nought) price && is_less price (number one))
      then says price_out_of_range
      else ask_size token_id side price (to_float answers.size) answers.confirmed

  unfoldable pub place_limit_order : String → Side → LimitAnswers → Dialogue (Float F)
  place_limit_order token_id side answers = ask_price token_id side (to_float answers.price) answers

  unfoldable pub ask_amount : String → Side → Option (Float F) → Bool → Dialogue (Float F)
  ask_amount token_id side none confirmed = says invalid_amount
  ask_amount token_id side (some amount) confirmed =
      if is_at_most amount (number nought)
      then says amount_not_positive
      else if confirmed
      then making takes (market_order token_id amount (side_text side))
      else says cancelled

  unfoldable pub place_market_order : String → Side → MarketAnswers → Dialogue (Float F)
  place_market_order token_id side answers =
      ask_amount token_id side (to_float answers.amount) answers.confirmed

  -- Whether a number of the table can be read: one that is missing is 0.
  abbrev pub is_shown : Option String → Bool
  is_shown none = true
  is_shown (some text) = elim (to_float text) [ none ↦ false | some value ↦ true ]

  -- Whether the table of the first `n` orders can be shown.
  unfoldable pub is_table : ℕ → List OpenOrder → Bool
  is_table zero orders = true
  is_table (suc n) [] = true
  is_table (suc n) (List.◌∷◌ order orders) =
      (is_shown order.price && is_shown order.size) && is_table n orders

  unfoldable pub cancel_order : Option OpenOrder → Dialogue (Float F)
  cancel_order none = says invalid_number
  cancel_order (some order) = making takes (cancels order.id)

  unfoldable pub cancel_choice : Option Integer → List OpenOrder → Dialogue (Float F)
  cancel_choice none orders = says error
  cancel_choice (some negative) orders = says invalid_number
  cancel_choice (some (natural zero)) orders = says invalid_number
  cancel_choice (some (natural (suc idx))) orders = cancel_order (order_at idx orders)

  -- `show_open_orders`, where the request for the orders may fail, as the table does for a price or a
  -- size that is no number.
  unfoldable pub show_open_orders : Option (List OpenOrder) → CancelAnswers → Dialogue (Float F)
  show_open_orders none answers = says error
  show_open_orders (some []) answers = says no_orders
  show_open_orders (some (List.◌∷◌ order orders)) answers =
      if not (is_table 10 (cons order orders))
      then says error
      else if not answers.cancel_one
      then says nothing
      else if lower answers.choice == "all"
      then (if answers.cancel_every then making takes cancels_all else says nothing)
      else cancel_choice (to_int answers.choice) (cons order orders)

  unfoldable pub run_action : Action → Dialogue (Float F)
  run_action exit = says nothing
  run_action show = says nothing
  run_action (limit token_id side answers) = place_limit_order token_id side answers
  run_action (market token_id side answers) = place_market_order token_id side answers
  run_action (open_orders orders answers) = show_open_orders orders answers

  -- The calls of a session, which ends with the first choice to exit.
  unfoldable pub run_actions : List Action → List (Call (Float F))
  run_actions [] = []
  run_actions (List.◌∷◌ exit actions) = []
  run_actions (List.◌∷◌ action actions) = (run_action action).calls ++ run_actions actions
