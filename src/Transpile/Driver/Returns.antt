-- ===== src/Transpile/Driver/Returns.antt =====
-- The strategies that are transpiled.
use pmt.Prelude.{ℕ, String, ◌≡◌, refl, ap, ◌∙◌, Bool, true, false, Option, none, some, List, arith}
use pmt.Dict.{Dict}
use pmt.Transpile.Chars.{pascal}
use pmt.Transpile.Syntax.{Exprs, function_def, Stmts, done, then_stmt}
use pmt.Transpile.Validator.{Parsed, module_body}
use pmt.Transpile.Validator.Nodes.{nodes_of_stmts, all_permitted}
use pmt.Transpile.Statements.Sound.{are_sound}
use pmt.Transpile.Params.{Value}
use pmt.Transpile.Strategy.{StrategyMeta, Function, strategy, or_empty, get_strategy_meta}
use pmt.Transpile.Module.{function_body, body_of, generate}
use pmt.Transpile.Module.Total.{generate-IsSome}
use pmt.Transpile.Driver.{returned, generated, result_for, transpile}
use pmt.Transpile.Driver.Outcomes.{accepted, is_transpile_error-transpile, transpile-unvalidated}

result-generated :
    (meta : StrategyMeta) (code : String)
    → generate meta ≡ some code
    → generated meta ≡ result_for meta (some code)
unfolding generated
result-generated meta code e = ap (result_for meta) e

abbrev metadata :
    String → Option (List String) → ℕ → Option (Dict Value) → Bool → Parsed → StrategyMeta
metadata name tokens tick_interval_ms params transpilable source = record {
  name = name;
  tokens = or_empty tokens;
  tick_interval_ms = tick_interval_ms;
  on_tick = source;
  params = or_empty params;
  transpilable = transpilable;
}

abbrev with_meta : Parsed → StrategyMeta → Function
with_meta source meta = record { source = source; strategy_meta = some meta }

module _ (print_nat : ℕ → String) where
  transpile-generated :
      (source : Parsed) (meta : StrategyMeta) (strict : Bool)
      → accepted source ≡ true
      → (transpile print_nat (with_meta source meta) true strict).outcome ≡ generated meta
  unfolding transpile get_strategy_meta
  transpile-generated source meta strict h =
      transpile-unvalidated print_nat (with_meta source meta) true strict (
        is_transpile_error-transpile print_nat (with_meta source meta) strict ∙ rw h (ground arith))

  -- A decorated function is transpiled, with validation and whether or not `strict` is on, if its
  -- source is one definition, all nodes are permitted and the body is sound: each of its assignments
  -- has a target, which is a name if an attribute of a variable is assigned, and each call of
  -- `Decimal` that is read has an argument. The outcome is a result with the name and the tokens of
  -- the decorator.
  pub transpile-strategy :
      (name : String) (tokens : Option (List String)) (tick_interval_ms : ℕ)
      (params : Option (Dict Value)) (transpilable strict : Bool) (line : ℕ) (id : String)
      (args : Exprs) (body : Stmts) (decorators : Exprs)
      → all_permitted
          (nodes_of_stmts false (then_stmt (function_def line id args body decorators) done))
        ≡ true
      → are_sound body ≡ true
      → (rust_code : String) × ((transpile print_nat
            (strategy name tokens tick_interval_ms params transpilable (record {
              source = module_body (then_stmt (function_def line id args body decorators) done);
              strategy_meta = none;
            }))
            true
            strict).outcome
          ≡ returned (record {
            rust_code = rust_code;
            strategy_name = name;
            struct_name = pascal true name;
            tokens = or_empty tokens;
          }))
  unfolding strategy accepted function_body body_of
  transpile-strategy name tokens tick_interval_ms params transpilable strict line id args body
        decorators h k =
      let source = module_body (then_stmt (function_def line id args body decorators) done) in
      let meta = metadata name tokens tick_interval_ms params transpilable source in
      let code = generate-IsSome meta body refl k in
      (code.0, transpile-generated source meta strict h ∙ result-generated meta code.0 code.1)
