-- ===== src/Trade/Guards.antt =====
-- Which calls a session of dialogues makes.
use text.Mathlib.Text.{◌==◌}
use Prim.Native.Nat.{suc, zero}
use pmt.Prelude.{
  ℕ, String, ◌≡◌, refl, ◌∙◌, Bool, true, false, not, Option, none, some, List, [], ◌∷◌, ◌++◌, All,
  All-append, All-map, Bool-cases, inl, inr, arith, if◌then◌else◌, Option-cases,
}
use pmt.Numeric.{Numeric, nought, one}
use pmt.Strategies.Words.{lower}
use pmt.Clob.Hex.{Integer, natural, negative, to_int}
use pmt.Clob.Orders.{Call, posts, posts_fok, cancels, cancels_all, post_order, market_order}
use pmt.Trade.{
  Float, number, is_less, is_at_most, Side, side_text, Dialogue, OpenOrder, order_at, is_table,
  CancelAnswers, LimitAnswers, MarketAnswers, Action, exit, show, limit, market, open_orders,
  confirm_limit, ask_size, ask_price, place_limit_order, ask_amount, place_market_order,
  cancel_order, cancel_choice, show_open_orders, run_action, run_actions,
}

-- Every call of a dialogue is of a kind.
record AllCalls {F : Type 0} (P : Call F → Type 0) (d : Dialogue F) : Type 0 where
  each : All P d.calls

AllCalls-if :
    {F : Type 0} {P : Call F → Type 0} (b : Bool) {d e : Dialogue F}
    → (b ≡ true → AllCalls P d)
    → (b ≡ false → AllCalls P e)
    → AllCalls P (if b then d else e)
AllCalls-if true h k = h refl
AllCalls-if false h k = k refl

module _ {F : Type 0} ⦃f : Numeric F⦄ (to_float : String → Option (Float F)) where
  -- A call that the answers of a round of the loop allow.
  pub data IsAllowed : Action → Call (Float F) → Type 0 where
    limit_order :
        {token_id : String} {side : Side} {answers : LimitAnswers} {price size : Float F}
        → to_float answers.price ≡ some price
        → to_float answers.size ≡ some size
        → is_less (number nought) price ≡ true
        → is_less price (number one) ≡ true
        → is_at_most size (number nought) ≡ false
        → answers.confirmed ≡ true
        → IsAllowed (limit token_id side answers) (
            posts
              (record { token_id = token_id; price = price; size = size; side = side_text side }))
    fok_order :
        {token_id : String} {side : Side} {answers : MarketAnswers} {amount : Float F}
        → to_float answers.amount ≡ some amount
        → is_at_most amount (number nought) ≡ false
        → answers.confirmed ≡ true
        → IsAllowed
            (market token_id side answers)
            (posts_fok (record { token_id = token_id; amount = amount; side = side_text side }))
    one_cancelled :
        {orders : List OpenOrder} {answers : CancelAnswers} {order : OpenOrder} (idx : ℕ)
        → answers.cancel_one ≡ true
        → to_int answers.choice ≡ some (natural (suc idx))
        → order_at idx orders ≡ some order
        → IsAllowed (open_orders (some orders) answers) (cancels order.id)
    all_cancelled :
        {orders : List OpenOrder} {answers : CancelAnswers}
        → answers.cancel_one ≡ true
        → (lower answers.choice == "all") ≡ true
        → answers.cancel_every ≡ true
        → IsAllowed (open_orders (some orders) answers) cancels_all

  -- A call that some round allows.
  pub data IsAllowedBy : List Action → Call (Float F) → Type 0 where
    here :
        {a : Action} {actions : List Action} {call : Call (Float F)}
        → IsAllowed a call
        → IsAllowedBy (a ∷ actions) call
    there :
        {a : Action} {actions : List Action} {call : Call (Float F)}
        → IsAllowedBy actions call
        → IsAllowedBy (a ∷ actions) call

  module _ (takes : Call (Float F) → Bool) where
    confirmed-IsAllowed :
        (token_id : String) (side : Side) (answers : LimitAnswers) (price size : Float F) (b : Bool)
        → answers.confirmed ≡ b
        → (b ≡ true
            → IsAllowed
                (limit token_id side answers)
                (post_order token_id price size (side_text side) "GTC"))
        → All
            (IsAllowed (limit token_id side answers))
            (confirm_limit to_float takes token_id side price size b).calls
    unfolding confirm_limit
    confirmed-IsAllowed token_id side answers price size true h ok = (ok refl, tt)
    confirmed-IsAllowed token_id side answers price size false h ok = tt

    size-IsAllowed :
        (token_id : String) (side : Side) (answers : LimitAnswers) (price : Float F)
        (o : Option (Float F))
        → to_float answers.price ≡ some price
        → is_less (number nought) price ≡ true
        → is_less price (number one) ≡ true
        → to_float answers.size ≡ o
        → All
            (IsAllowed (limit token_id side answers))
            (ask_size to_float takes token_id side price o answers.confirmed).calls
    unfolding ask_size post_order
    size-IsAllowed token_id side answers price none h low high k = tt
    size-IsAllowed token_id side answers price (some size) h low high k =
        elim (Bool-cases (is_at_most size (number nought))) [
          | inl e ↦ rw e tt
          | inr e ↦ rw e (
              confirmed-IsAllowed token_id side answers price size answers.confirmed refl
                (λ c. limit_order h k low high e c))
        ]

    price-IsAllowed :
        (token_id : String) (side : Side) (answers : LimitAnswers) (o : Option (Float F))
        → to_float answers.price ≡ o
        → All
            (IsAllowed (limit token_id side answers))
            (ask_price to_float takes token_id side o answers).calls
    unfolding ask_price
    price-IsAllowed token_id side answers none h = tt
    price-IsAllowed token_id side answers (some price) h =
        elim (Bool-cases (is_less (number nought) price)) [
          | inl low ↦ rw low (elim (Bool-cases (is_less price (number one))) [
            | inl high ↦
                rw high (
                  size-IsAllowed token_id side answers price (to_float answers.size) h low high
                    refl)
            | inr e ↦ rw e tt
          ])
          | inr e ↦ rw e tt
        ]

    amount-IsAllowed :
        (token_id : String) (side : Side) (answers : MarketAnswers) (o : Option (Float F))
        (b : Bool)
        → to_float answers.amount ≡ o
        → answers.confirmed ≡ b
        → All
            (IsAllowed (market token_id side answers))
            (ask_amount to_float takes token_id side o b).calls
    unfolding ask_amount market_order
    amount-IsAllowed token_id side answers none b h k = tt
    amount-IsAllowed token_id side answers (some amount) b h k =
        elim (Bool-cases (is_at_most amount (number nought))) [
          | inl e ↦ rw e tt
          | inr e ↦
              rw e
                (elim (Bool-cases b) [ inl c ↦ rw c (fok_order h e (k ∙ c), tt) | inr c ↦ rw c tt ])
        ]

    choice-IsAllowed :
        (orders : List OpenOrder) (answers : CancelAnswers) (choice : Option Integer)
        → answers.cancel_one ≡ true
        → to_int answers.choice ≡ choice
        → All
            (IsAllowed (open_orders (some orders) answers))
            (cancel_choice to_float takes choice orders).calls
    unfolding cancel_choice cancel_order
    choice-IsAllowed orders answers none h k = tt
    choice-IsAllowed orders answers (some negative) h k = tt
    choice-IsAllowed orders answers (some (natural zero)) h k = tt
    choice-IsAllowed orders answers (some (natural (suc idx))) h k =
        elim (Option-cases (order_at idx orders)) [
          | inl e ↦ rw e tt
          | inr (order, e) ↦ rw e (one_cancelled idx h k e, tt)
        ]

    cancel-IsAllowed :
        (orders : List OpenOrder) (answers : CancelAnswers)
        → AllCalls
            (IsAllowed (open_orders (some orders) answers))
            (show_open_orders to_float takes (some orders) answers)
    unfolding show_open_orders
    cancel-IsAllowed [] answers = record { each = tt }
    cancel-IsAllowed (order ∷ orders) answers =
        AllCalls-if (not (is_table to_float takes 10 (order ∷ orders))) (λ h. record { each = tt })
          λ t.
            AllCalls-if (not answers.cancel_one) (λ h. record { each = tt })
              λ h.
                let chosen : answers.cancel_one ≡ true = ground arith in
                AllCalls-if (lower answers.choice == "all")
                  (λ every.
                    AllCalls-if answers.cancel_every
                      (λ sure. record { each = (all_cancelled chosen every sure, tt) })
                      (λ e. record { each = tt }))
                  (λ e. record {
                    each =
                        choice-IsAllowed (order ∷ orders) answers (to_int answers.choice) chosen
                          refl;
                  })

    run_action-IsAllowed : (a : Action) → All (IsAllowed a) (run_action to_float takes a).calls
    unfolding run_action place_limit_order place_market_order show_open_orders
    run_action-IsAllowed exit = tt
    run_action-IsAllowed show = tt
    run_action-IsAllowed (limit token_id side answers) =
        price-IsAllowed token_id side answers (to_float answers.price) refl
    run_action-IsAllowed (market token_id side answers) =
        amount-IsAllowed token_id side answers (to_float answers.amount) answers.confirmed refl refl
    run_action-IsAllowed (open_orders none answers) = tt
    run_action-IsAllowed (open_orders (some orders) answers) =
        (cancel-IsAllowed orders answers).each

    either-IsAllowed :
        (a : Action) (actions : List Action)
        → All (IsAllowedBy actions) (run_actions to_float takes actions)
        → All
            (IsAllowedBy (a ∷ actions))
            ((run_action to_float takes a).calls ++ run_actions to_float takes actions)
    either-IsAllowed a actions h =
        All-append (IsAllowedBy (a ∷ actions)) (run_action to_float takes a).calls
          (run_actions to_float takes actions)
          (All-map (run_action to_float takes a).calls (λ call ok. here ok)
            (run_action-IsAllowed a))
          (All-map (run_actions to_float takes actions) (λ call ok. there ok) h)

    -- Every order that a session sends was asked for in one of its rounds: a limit order with a price
    -- over 0 and under 1, and a size that is not at most 0 but may be NaN, a market order with an
    -- amount that is not at most 0 but may be NaN, each confirmed, with the token and the side of
    -- that round. Every cancellation was chosen among the open
    -- orders by its number, or is that of all orders, which was confirmed twice.
    pub run_actions-IsAllowed :
        (actions : List Action) → All (IsAllowedBy actions) (run_actions to_float takes actions)
    unfolding run_actions
    run_actions-IsAllowed [] = tt
    run_actions-IsAllowed (exit ∷ actions) = tt
    run_actions-IsAllowed (show ∷ actions) =
        either-IsAllowed show actions (run_actions-IsAllowed actions)
    run_actions-IsAllowed (limit token_id side answers ∷ actions) =
        either-IsAllowed (limit token_id side answers) actions (run_actions-IsAllowed actions)
    run_actions-IsAllowed (market token_id side answers ∷ actions) =
        either-IsAllowed (market token_id side answers) actions (run_actions-IsAllowed actions)
    run_actions-IsAllowed (open_orders orders answers ∷ actions) =
        either-IsAllowed (open_orders orders answers) actions (run_actions-IsAllowed actions)
