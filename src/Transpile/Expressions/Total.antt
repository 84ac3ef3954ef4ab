-- ===== src/Transpile/Expressions/Total.antt =====
-- The expressions for which a text is generated.
use text.Mathlib.Text.{◌==◌}
use mathlib.Core.Bool.{true≢false}
use pmt.Prelude.{String, ◌≡◌, Bool, true, false, Option, List, ◌&&◌, arith, not, All}
use pmt.Dict.{Dict}
use pmt.Transpile.Syntax.{
  and_op, or_op, Expr, name, constant, call, attribute, compare, bool_op, bin_op, unary_op, list,
  tuple, subscript, if_exp, comprehension, lambda, yield, yield_from, other, Exprs, none_left, item,
  Keywords, no_keywords, keyword, Comparisons, end, against,
}
use pmt.Transpile.Calls.{named, decimal_call, function_call}
use pmt.Transpile.Expressions.{
  gen_expr, gen_exprs, borrow_string_args, gen_keywords, gen_comparisons,
}
use pmt.Transpile.Expressions.Gives.{
  Gives, gives, Gives-bind, map-Gives, all_of-Gives, named-Gives, borrowed-Gives, if-Gives,
  decimal_text-Gives,
}

abbrev pub is_none_left : Exprs → Bool
is_none_left none_left = true
is_none_left (item e es) = false

-- `Decimal()`
abbrev pub is_empty_decimal : Expr → Exprs → Bool
is_empty_decimal (name id) args = id == "Decimal" && is_none_left args
is_empty_decimal _ args = false

-- Every `Decimal(...)` call in the expression has an argument.
unfoldable mutual
  pub decimals : Expr → Bool
  decimals (name id) = true
  decimals (constant c) = true
  decimals (call line func args kws) =
      not (is_empty_decimal func args)
      && (decimals func && (decimals_in args && decimals_in_keywords kws))
  decimals (attribute object attr) = decimals object
  decimals (compare left comparisons) = decimals left && decimals_in_comparisons comparisons
  decimals (bool_op op values) = decimals_in values
  decimals (bin_op left op right) = decimals left && decimals right
  decimals (unary_op op operand) = decimals operand
  decimals (list elts) = decimals_in elts
  decimals (subscript object index) = decimals object && decimals index
  decimals (if_exp test body orelse) = decimals test && (decimals body && decimals orelse)
  decimals _ = true

  pub decimals_in : Exprs → Bool
  decimals_in none_left = true
  decimals_in (item e es) = decimals e && decimals_in es

  pub decimals_in_keywords : Keywords → Bool
  decimals_in_keywords no_keywords = true
  decimals_in_keywords (keyword arg e kws) = decimals e && decimals_in_keywords kws

  pub decimals_in_comparisons : Comparisons → Bool
  decimals_in_comparisons end = true
  decimals_in_comparisons (against op e comparisons) =
      decimals e && decimals_in_comparisons comparisons

decimal_call-Gives :
    (strings : List String) (args : Exprs)
    → is_none_left args ≡ false
    → All (λ o. Gives o) (gen_exprs strings args)
    → Gives (decimal_call args (gen_exprs strings args))
unfolding gen_exprs
decimal_call-Gives strings none_left h k = absurd (true≢false h)
decimal_call-Gives strings (item e es) h k =
    decimal_text-Gives e es (gen_expr strings e) (gen_exprs strings es) k.0

function_call-Gives :
    (strings : List String) (id : String) (args : Exprs) (kwargs : Option (Dict String))
    → (id == "Decimal" && is_none_left args) ≡ false
    → All (λ o. Gives o) (gen_exprs strings args)
    → Gives kwargs
    → Gives (function_call id args (gen_exprs strings args) kwargs)
unfolding function_call
function_call-Gives strings id args kwargs h k g =
    if-Gives (id == "Buy") (λ e. map-Gives _ g)
      (λ e1.
        if-Gives (id == "Sell") (λ e. map-Gives _ g)
          (λ e2.
            if-Gives (id == "Cancel") (λ e. map-Gives _ g)
              (λ e3.
                if-Gives (id == "Hold") (λ e. gives)
                  (λ e4.
                    if-Gives (id == "Shutdown") (λ e. map-Gives _ g)
                      (λ e5.
                        if-Gives (id == "Decimal")
                          (λ e. decimal_call-Gives strings args (ground arith) k)
                          (λ e6.
                            if-Gives (id == "list") (λ e. gives)
                              (λ e7. map-Gives _ (all_of-Gives _ k))))))))

module _ (a b : Bool) (h : (a && b) ≡ true) where
  first_holds : a ≡ true
  first_holds = ground arith

  second_holds : b ≡ true
  second_holds = ground arith

argument_given : (a b : Bool) → (not a && b) ≡ true → a ≡ false
argument_given a b h = ground arith

mutual
  unfolding gen_expr gen_exprs borrow_string_args gen_keywords gen_comparisons decimals decimals_in
      decimals_in_keywords decimals_in_comparisons

  pub gen_expr-Gives :
      (strings : List String) (e : Expr) → decimals e ≡ true → Gives (gen_expr strings e)
  gen_expr-Gives strings (name id) h = gives
  gen_expr-Gives strings (constant c) h = gives
  gen_expr-Gives strings (call line (attribute object method) args kws) h =
      let parts = decimals_in args && decimals_in_keywords kws in
      let args_given =
        first_holds (decimals_in args) (decimals_in_keywords kws)
          (second_holds (decimals object) parts h) in
      Gives-bind _ (gen_expr-Gives strings object (first_holds (decimals object) parts h)) (λ o.
        Gives-bind _ (all_of-Gives _ (gen_exprs-Gives strings args args_given)) (λ ts.
          Gives-bind _ (all_of-Gives _ (borrow-Gives strings args args_given)) (λ rs. gives)))
  gen_expr-Gives strings (call line (name id) args kws) h =
      let parts = decimals_in args && decimals_in_keywords kws in
      let empty = id == "Decimal" && is_none_left args in
      let given = second_holds (not empty) parts h in
      function_call-Gives strings id args (named (gen_keywords strings kws))
        (argument_given empty parts h)
        (gen_exprs-Gives strings args
          (first_holds (decimals_in args) (decimals_in_keywords kws) given))
        (named-Gives _ (
          gen_keywords-Gives strings kws
            (second_holds (decimals_in args) (decimals_in_keywords kws) given)))
  gen_expr-Gives strings (call line _ args kws) h = gives
  gen_expr-Gives strings (attribute object attr) h =
      Gives-bind _ (gen_expr-Gives strings object h) (λ t. gives)
  gen_expr-Gives strings (compare left comparisons) h =
      Gives-bind _
        (gen_expr-Gives strings left
          (first_holds (decimals left) (decimals_in_comparisons comparisons) h))
        (λ t.
          Gives-bind _
            (gen_comparisons-Gives strings comparisons
              (second_holds (decimals left) (decimals_in_comparisons comparisons) h))
            (λ ts. gives))
  gen_expr-Gives strings (bool_op and_op values) h =
      Gives-bind _ (all_of-Gives _ (gen_exprs-Gives strings values h)) (λ t. gives)
  gen_expr-Gives strings (bool_op or_op values) h =
      Gives-bind _ (all_of-Gives _ (gen_exprs-Gives strings values h)) (λ t. gives)
  gen_expr-Gives strings (bin_op left op right) h =
      Gives-bind _ (gen_expr-Gives strings left (first_holds (decimals left) (decimals right) h))
        (λ l.
          Gives-bind _
            (gen_expr-Gives strings right (second_holds (decimals left) (decimals right) h))
            (λ r. gives))
  gen_expr-Gives strings (unary_op op operand) h =
      Gives-bind _ (gen_expr-Gives strings operand h) (λ t. gives)
  gen_expr-Gives strings (list elts) h =
      Gives-bind _ (all_of-Gives _ (gen_exprs-Gives strings elts h)) (λ t. gives)
  gen_expr-Gives strings (tuple elts) h = gives
  gen_expr-Gives strings (subscript object index) h =
      Gives-bind _
        (gen_expr-Gives strings object (first_holds (decimals object) (decimals index) h))
        (λ o.
          Gives-bind _
            (gen_expr-Gives strings index (second_holds (decimals object) (decimals index) h))
            (λ i. gives))
  gen_expr-Gives strings (if_exp test body orelse) h =
      Gives-bind _
        (gen_expr-Gives strings test
          (first_holds (decimals test) (decimals body && decimals orelse) h))
        (λ t.
          Gives-bind _
            (gen_expr-Gives strings body (
              first_holds (decimals body) (decimals orelse)
                (second_holds (decimals test) (decimals body && decimals orelse) h)))
            (λ b.
              Gives-bind _
                (gen_expr-Gives strings orelse (
                  second_holds (decimals body) (decimals orelse)
                    (second_holds (decimals test) (decimals body && decimals orelse) h)))
                (λ o. gives)))
  gen_expr-Gives strings (comprehension kind line parts) h = gives
  gen_expr-Gives strings (lambda line parts) h = gives
  gen_expr-Gives strings (yield line parts) h = gives
  gen_expr-Gives strings (yield_from line parts) h = gives
  gen_expr-Gives strings (other class_name parts) h = gives

  gen_exprs-Gives :
      (strings : List String) (es : Exprs)
      → decimals_in es ≡ true
      → All (λ o. Gives o) (gen_exprs strings es)
  gen_exprs-Gives strings none_left h = tt
  gen_exprs-Gives strings (item e es) h = (
    gen_expr-Gives strings e (first_holds (decimals e) (decimals_in es) h),
    gen_exprs-Gives strings es (second_holds (decimals e) (decimals_in es) h),
  )

  borrow-Gives :
      (strings : List String) (es : Exprs)
      → decimals_in es ≡ true
      → All (λ o. Gives o) (borrow_string_args strings es)
  borrow-Gives strings none_left h = tt
  borrow-Gives strings (item e es) h = (
    borrowed-Gives strings e (gen_expr strings e)
        (gen_expr-Gives strings e (first_holds (decimals e) (decimals_in es) h)),
    borrow-Gives strings es (second_holds (decimals e) (decimals_in es) h),
  )

  gen_keywords-Gives :
      (strings : List String) (kws : Keywords)
      → decimals_in_keywords kws ≡ true
      → All (λ k. Gives k.1) (gen_keywords strings kws)
  gen_keywords-Gives strings no_keywords h = tt
  gen_keywords-Gives strings (keyword arg e kws) h = (
    gen_expr-Gives strings e (first_holds (decimals e) (decimals_in_keywords kws) h),
    gen_keywords-Gives strings kws (second_holds (decimals e) (decimals_in_keywords kws) h),
  )

  gen_comparisons-Gives :
      (strings : List String) (cs : Comparisons)
      → decimals_in_comparisons cs ≡ true
      → Gives (gen_comparisons strings cs)
  gen_comparisons-Gives strings end h = gives
  gen_comparisons-Gives strings (against op e cs) h =
      Gives-bind _
        (gen_expr-Gives strings e (first_holds (decimals e) (decimals_in_comparisons cs) h))
        (λ t.
          Gives-bind _
            (gen_comparisons-Gives strings cs
              (second_holds (decimals e) (decimals_in_comparisons cs) h))
            (λ ts. gives))
