-- ===== src/Transpile/TestGenerator.antt =====
-- The generator of Rust tests for a strategy: `RustTestGenerator` and `generate_tests` of
-- pmstrat/pmstrat/transpile.py.
pub mod Selected
use Prim.Native.String.{◌++◌}
use text.Mathlib.Text.{◌==◌}
use pmt.Prelude.{
  String, Bool, true, false, Option, none, some, List, [], ◌∷◌, if◌then◌else◌, ◌||◌, not, ◌>>=◌,
}
use mathlib.Core.List.{◌++◌ as append}
use pmt.Dict.{Dict, lookup}
use pmt.Transpile.Texts.{has, join, unlines}
use pmt.Transpile.Chars.{pascal}
use pmt.Transpile.Params.{Value, scalar, sequence, Atom, shown_value, param_to_rust}
use pmt.Transpile.Strategy.{StrategyMeta, Function, get_strategy_meta}
use pmt.Transpile.TestTexts.{
  header_text, discovery_imports, plain_imports, liquidity_filter_test, low_price_filter_test,
  high_price_filter_test, expiry_filter_test, no_markets_test,
}
use pmt.Transpile.TestTexts.Behavior.{
  sure_bets_market_test, quoted_market_test, max_position_tests, sure_bets_markets_test,
  quoted_markets_test, instantiation_test,
}

pub record TestGeneratorConfig : Type 0 where
  pub is_market_discovery : Bool
  pub params : Dict Value
  pub strategy_name : String
  pub struct_name : String

-- `name in params`
unfoldable pub has_param : String → Dict Value → Bool
has_param name [] = false
has_param name ((other, value) ∷ params) = if other == name then true else has_param name params

abbrev pub is_sure_bets : TestGeneratorConfig → Bool
is_sure_bets config =
    has_param "MIN_CERTAINTY" config.params || has_param "MAX_CERTAINTY" config.params

-- The parameters that become constants.
abbrev pub constant_names : List String
constant_names =
    "MIN_LIQUIDITY" ∷ "MAX_LIQUIDITY" ∷ "MIN_PRICE" ∷ "MAX_PRICE" ∷ "MIN_SPREAD_PCT"
    ∷ "MAX_SPREAD_PCT" ∷ "MIN_HOURS_TO_EXPIRY" ∷ "MAX_HOURS_TO_EXPIRY" ∷ "ORDER_SIZE"
    ∷ "SKEW_FACTOR" ∷ "SPREAD_BPS" ∷ "MIN_EDGE" ∷ "MAX_TOKENS" ∷ "MAX_POSITION" ∷ []

unfoldable pub test_constants : Dict Value → List String
test_constants [] = []
test_constants ((name, value) ∷ params) =
    let rest = test_constants params in
    let rust = param_to_rust name value in
    if has constant_names name
    then "#[allow(dead_code)]"
      ∷ ("const " ++ name ++ ": " ++ rust.0 ++ " = " ++ rust.1 ++ ";")
      ∷ rest
    else rest

unfoldable pub gen_imports : TestGeneratorConfig → String
gen_imports config =
    if config.is_market_discovery
    then discovery_imports config.struct_name
    else plain_imports config.struct_name

unfoldable pub gen_constants : TestGeneratorConfig → String
gen_constants config =
    if not config.is_market_discovery
    then ""
    else unlines ("// Strategy constants (from transpiled strategy)" ∷ test_constants config.params)
      ++ "\n\n"

-- A test that is there for a parameter.
abbrev pub test_for : String → Dict Value → String → List String
test_for name params test = if has_param name params then test ∷ [] else []

-- `_gen_helpers`
abbrev pub gen_helpers : String
gen_helpers = ""

abbrev pub gen_qualifying_market_test : TestGeneratorConfig → String
gen_qualifying_market_test config =
    if is_sure_bets config
    then sure_bets_market_test config.struct_name
    else quoted_market_test config.struct_name

abbrev pub gen_multi_market_test : TestGeneratorConfig → String
gen_multi_market_test config =
    if is_sure_bets config
    then sure_bets_markets_test config.struct_name
    else quoted_markets_test config.struct_name

abbrev pub is_empty : {A : Type 0} → List A → Bool
is_empty [] = true
is_empty (a ∷ others) = false

-- `halved` is the text of a value divided by two, none where the division raises TypeError;
-- `shown_list` is Python's `str` of a list.
module _ (halved : Value → Option String) (shown_list : List Atom → String) where
  -- `str(value)`
  unfoldable pub shown : Value → String
  shown (scalar value) = shown_value value
  shown (sequence values) = shown_list values

  -- The test for the parameter MIN_LIQUIDITY.
  unfoldable pub liquidity_tests : String → Option Value → Option (List String)
  liquidity_tests struct none = some []
  liquidity_tests struct (some min_liq) = do
    low_liq ← halved min_liq
    some (liquidity_filter_test struct low_liq ∷ [])

  unfoldable pub filter_tests : TestGeneratorConfig → Option (List String)
  filter_tests config = do
    let struct = config.struct_name
    liquidity ← liquidity_tests struct (lookup "MIN_LIQUIDITY" config.params)
    some (
        append liquidity (
          append (test_for "MIN_PRICE" config.params (low_price_filter_test struct)) (
            append (test_for "MAX_PRICE" config.params (high_price_filter_test struct)) (
              append (test_for "MIN_HOURS_TO_EXPIRY" config.params (expiry_filter_test struct))
                (no_markets_test struct ∷ [])))))

  unfoldable pub gen_filter_tests : TestGeneratorConfig → Option String
  gen_filter_tests config =
      if not config.is_market_discovery
      then some "// No filter tests for non-market-discovery strategies\n\n"
      else (do tests ← filter_tests config; some (unlines tests))

  unfoldable pub position_tests : String → Option Value → List String
  position_tests struct none = []
  position_tests struct (some max_pos) = max_position_tests struct (shown max_pos) ∷ []

  unfoldable pub behavior_tests : TestGeneratorConfig → List String
  behavior_tests config =
      gen_qualifying_market_test config
      ∷ append (position_tests config.struct_name (lookup "MAX_POSITION" config.params))
          (gen_multi_market_test config ∷ [])

  unfoldable pub gen_behavior_tests : TestGeneratorConfig → String
  gen_behavior_tests config =
      if not config.is_market_discovery then "" else unlines (behavior_tests config)

  -- `RustTestGenerator.generate`
  unfoldable pub generate : TestGeneratorConfig → Option String
  generate config = do
    filters ← gen_filter_tests config
    some (
        unlines (
          header_text config.strategy_name
          ∷ gen_imports config
          ∷ gen_constants config
          ∷ gen_helpers
          ∷ filters
          ∷ gen_behavior_tests config
          ∷ instantiation_test config.strategy_name config.struct_name
          ∷ []))

  -- `generate_tests`, none where it raises.
  unfoldable pub generate_tests : Function → Option String
  generate_tests strategy_func = do
    meta ← get_strategy_meta strategy_func
    generate (record {
      is_market_discovery = is_empty meta.tokens;
      params = meta.params;
      strategy_name = meta.name;
      struct_name = pascal true meta.name;
    })
