-- ===== src/Tests/Transpiling.antt =====
-- The transpiler on a strategy that reads a book and bids at its best bid.
use pmt.Prelude.{
  ℕ, String, ◌≡◌, refl, ◌∙◌, true, false, none, some, List, [], ◌∷◌, map, ◌&&◌, not, leb,
  if◌then◌else◌,
}
use pmt.Transpile.Syntax.{
  str, null, is, add, name, constant, call, attribute, compare, Expr, list, none_left, item,
  no_keywords, keyword, end, against, Stmt, return, assign, aug_assign, if_stmt, expr_stmt,
  function_def, global, Stmts, done, then_stmt,
}
use pmt.Transpile.Texts.{has}
use pmt.Transpile.Expressions.Total.{decimals}
use pmt.Transpile.Statements.Sound.{is_sound, are_sound}
use pmt.Transpile.Module.{generate, function_body, body_of}
use pmt.Transpile.Module.Total.{generate-IsSome}
use pmt.Transpile.Driver.{returned}
use pmt.Transpile.Driver.Returns.{transpile-strategy}
use pmt.Transpile.Strategy.{StrategyMeta}
use pmt.Transpile.Chars.{pascal}
use pmt.Transpile.Options.{returns, none_check, attr_check, name_assign, attr_value, preprocess}
use pmt.Transpile.Options.RoundTrip.{canonical, expand, expand-preprocess}
use pmt.Transpile.Options.Lost.{assigns_attr, ends_unassigned, preprocess-lost}
use pmt.Transpile.Validator.{Parsed, module_body, visit_stmts}
use pmt.Transpile.Validator.Nodes.{nodes_of_stmts, all_permitted}
use pmt.Transpile.Validator.Judges.{is_empty}
use pmt.Transpile.Validator.Accepts.{is_empty-visit_stmts}
use pmt.Transpile.Strategy.{Function, strategy}
use pmt.Transpile.Driver.{transpile}
use pmt.Transpile.Driver.Outcomes.{
  accepted, has_meta, is_transpile_error, is_transpile_error-transpile, transpile-unvalidated,
}

abbrev book_call : Expr
book_call =
    call 3 (attribute (name "ctx") "book") (item (constant (str "tok")) none_left) no_keywords

abbrev best_bid : Expr
best_bid = attribute (name "book") "best_bid"

abbrev best_ask : Expr
best_ask = attribute (name "book") "best_ask"

abbrev none_test : Expr → Stmt
none_test left =
    if_stmt (compare left (against is (constant null) end))
      (then_stmt (return (some (name "signals"))) done) done

abbrev pub set_to : String → Expr → Stmt
set_to id value = assign (item (name id) none_left) value

abbrev buy : Expr
buy = call 8 (name "Buy") none_left (
    keyword (some "token_id") (constant (str "tok")) (
      keyword (some "price") (name "bid") (
        keyword (some "size")
          (call 8 (name "Decimal") (item (constant (str "10")) none_left) no_keywords)
          (keyword (some "urgency") (attribute (name "Urgency") "LOW") no_keywords))))

abbrev pub body : Stmts
body = then_stmt (set_to "signals" (list none_left)) (
    then_stmt (set_to "book" book_call) (
      then_stmt (none_test (name "book")) (
        then_stmt (none_test best_bid) (
          then_stmt (set_to "bid" best_bid) (
            then_stmt
              (expr_stmt
                (call 8 (attribute (name "signals") "append") (item buy none_left) no_keywords))
              (then_stmt (return (some (name "signals"))) done))))))

abbrev module_of : Stmts → Parsed
module_of stmts = module_body (then_stmt (function_def 1 "on_tick" none_left stmts none_left) done)

abbrev pub decorated : Stmts → Function
decorated stmts =
    strategy "best_bid" none 1000 none true
      (record { source = module_of stmts; strategy_meta = none })

abbrev with_global : Stmts
with_global = then_stmt (global 2 ("seen" ∷ [])) body

is_empty-visit_stmts_example :
    is_empty (visit_stmts true with_global).errors ≡ all_permitted (nodes_of_stmts true with_global)
is_empty-visit_stmts_example = is_empty-visit_stmts true with_global

abbrev pub print_nat : ℕ → String
print_nat n = if leb n 0 then "0" else "1"

is_transpile_error-transpile_example :
    is_transpile_error (transpile print_nat (decorated with_global) true true).outcome ≡ (
      has_meta (decorated with_global).strategy_meta
      && not (accepted (decorated with_global).source))
is_transpile_error-transpile_example =
    is_transpile_error-transpile print_nat (decorated with_global) true

transpile-unvalidated_example :
    (transpile print_nat (decorated body) true true).outcome
    ≡ (transpile print_nat (decorated body) false false).outcome
unfolding strategy accepted nodes_of_stmts pmt.Transpile.Validator.Nodes.permitted has
    pmt.Transpile.Validator.Nodes.nodes_of_exprs pmt.Transpile.Validator.Nodes.nodes_of_option
transpile-unvalidated_example =
    transpile-unvalidated print_nat (decorated body) true true
      (is_transpile_error-transpile print_nat (decorated body) true ∙ refl)

abbrev stmts_of_body : List Stmt
stmts_of_body =
    set_to "book" book_call ∷ none_test (name "book") ∷ return (some (name "signals")) ∷ []

expand-preprocess_example :
    expand (λ s. s) (preprocess (λ s. s) stmts_of_body) ≡ map canonical stmts_of_body
unfolding attr_check none_check
expand-preprocess_example = expand-preprocess (λ s. s) stmts_of_body (refl, (refl, (refl, tt)))

abbrev after_test : List Stmt
after_test =
    set_to "spread" (attribute (name "book") "spread") ∷ return (some (name "signals")) ∷ []

preprocess-lost_example :
    preprocess (λ s. s) (none_test best_ask ∷ none_test best_bid ∷ after_test)
    ≡ preprocess (λ s. s) (none_test best_ask ∷ after_test)
unfolding attr_check none_check name_assign attr_value assigns_attr has ends_unassigned
preprocess-lost_example =
    preprocess-lost (λ s. s) (none_test best_bid) after_test "book" "best_bid"
      (returns (some (name "signals"))) refl (refl, (refl, tt)) (none_test best_ask ∷ []) refl

abbrev counted : Stmts
counted = then_stmt (set_to "count" (name "zero")) (
    then_stmt (aug_assign (name "count") add (name "one"))
      (then_stmt (set_to "last" (name "count")) (then_stmt (set_to "last" (name "zero")) done)))

abbrev plain_meta : StrategyMeta
plain_meta = record {
  name = "best_bid";
  tokens = [];
  tick_interval_ms = 1000;
  on_tick = module_of body;
  params = [];
  transpilable = true;
}

generate-IsSome_example : (rust_code : String) × (generate plain_meta ≡ some rust_code)
unfolding are_sound decimals is_sound function_body body_of
generate-IsSome_example = generate-IsSome plain_meta body refl refl

transpile-strategy_example :
    (rust_code : String) × ((transpile print_nat (decorated body) true true).outcome
      ≡ returned (record {
        rust_code = rust_code;
        strategy_name = "best_bid";
        struct_name = pascal true "best_bid";
        tokens = [];
      }))
unfolding nodes_of_stmts pmt.Transpile.Validator.Nodes.permitted has
    pmt.Transpile.Validator.Nodes.nodes_of_exprs pmt.Transpile.Validator.Nodes.nodes_of_option
    are_sound decimals is_sound
transpile-strategy_example =
    transpile-strategy print_nat "best_bid" none 1000 none true true 1 "on_tick" none_left body
      none_left refl refl
