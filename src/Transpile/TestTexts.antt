-- ===== src/Transpile/TestTexts.antt =====
-- The texts of the Rust tests that `RustTestGenerator` of pmstrat/pmstrat/transpile.py writes: the beginning
-- of the file and the tests of filters, with the name of the struct and the numbers put in.
pub mod Behavior
use Prim.Native.String.{◌++◌}
use pmt.Prelude.{String, [], ◌∷◌}
use pmt.Transpile.Texts.{unlines}

unfoldable pub header_text : String → String
header_text strategy_name = unlines (
    ("//! Auto-generated integration tests for " ++ strategy_name)
    ∷ "//! DO NOT EDIT - regenerate with `pmstrat transpile`"
    ∷ ""
    ∷ ""
    ∷ [])

unfoldable pub discovery_imports : String → String
discovery_imports struct = unlines (
    "mod fixtures;"
    ∷ ""
    ∷ "use fixtures::*;"
    ∷ ("use pmengine::strategies::" ++ struct ++ ";")
    ∷ "use pmengine::strategy::Strategy;"
    ∷ "use rust_decimal::Decimal;"
    ∷ "use rust_decimal_macros::dec;"
    ∷ ""
    ∷ ""
    ∷ [])

unfoldable pub plain_imports : String → String
plain_imports struct = unlines (
    ("use pmengine::strategies::" ++ struct ++ ";")
    ∷ "use pmengine::strategy::Strategy;"
    ∷ ""
    ∷ ""
    ∷ [])

unfoldable pub liquidity_filter_test : String → String → String
liquidity_filter_test struct low_liq = unlines (
    "#[test]"
    ∷ "fn test_filters_out_low_liquidity() {"
    ∷ ("    let mut strategy = " ++ struct ++ "::new();")
    ∷ "    let ctx = create_context_with_markets(vec!["
    ∷ ("        (\"token1\", dec!(0.68), dec!(0.72), 48.0, " ++ low_liq ++ ", dec!(0)),")
    ∷ "    ]);"
    ∷ "    let signals = strategy.on_tick(&ctx);"
    ∷ "    let (_, _, _, holds) = count_signal_types(&signals);"
    ∷ "    assert_eq!(holds, 1, \"Should hold for low liquidity\");"
    ∷ "}"
    ∷ ""
    ∷ ""
    ∷ [])

unfoldable pub low_price_filter_test : String → String
low_price_filter_test struct = unlines (
    "#[test]"
    ∷ "fn test_filters_out_low_price() {"
    ∷ ("    let mut strategy = " ++ struct ++ "::new();")
    ∷ "    let ctx = create_context_with_markets(vec!["
    ∷ "        (\"token1\", dec!(0.10), dec!(0.15), 48.0, 50000.0, dec!(0)),"
    ∷ "    ]);"
    ∷ "    let signals = strategy.on_tick(&ctx);"
    ∷ "    let (_, _, _, holds) = count_signal_types(&signals);"
    ∷ "    assert_eq!(holds, 1, \"Should hold for low price\");"
    ∷ "}"
    ∷ ""
    ∷ ""
    ∷ [])

unfoldable pub high_price_filter_test : String → String
high_price_filter_test struct = unlines (
    "#[test]"
    ∷ "fn test_filters_out_high_price() {"
    ∷ ("    let mut strategy = " ++ struct ++ "::new();")
    ∷ "    let ctx = create_context_with_markets(vec!["
    ∷ "        (\"token1\", dec!(0.85), dec!(0.90), 48.0, 50000.0, dec!(0)),"
    ∷ "    ]);"
    ∷ "    let signals = strategy.on_tick(&ctx);"
    ∷ "    let (_, _, _, holds) = count_signal_types(&signals);"
    ∷ "    assert_eq!(holds, 1, \"Should hold for high price\");"
    ∷ "}"
    ∷ ""
    ∷ ""
    ∷ [])

unfoldable pub expiry_filter_test : String → String
expiry_filter_test struct = unlines (
    "#[test]"
    ∷ "fn test_filters_out_near_expiry() {"
    ∷ ("    let mut strategy = " ++ struct ++ "::new();")
    ∷ "    let ctx = create_context_with_markets(vec!["
    ∷ "        (\"token1\", dec!(0.68), dec!(0.72), 12.0, 50000.0, dec!(0)),"
    ∷ "    ]);"
    ∷ "    let signals = strategy.on_tick(&ctx);"
    ∷ "    let (_, _, _, holds) = count_signal_types(&signals);"
    ∷ "    assert_eq!(holds, 1, \"Should hold for near expiry\");"
    ∷ "}"
    ∷ ""
    ∷ ""
    ∷ [])

unfoldable pub no_markets_test : String → String
no_markets_test struct = unlines (
    "#[test]"
    ∷ "fn test_no_markets() {"
    ∷ ("    let mut strategy = " ++ struct ++ "::new();")
    ∷ "    let ctx = create_context_with_markets(vec![]);"
    ∷ "    let signals = strategy.on_tick(&ctx);"
    ∷ "    let (_, _, _, holds) = count_signal_types(&signals);"
    ∷ "    assert_eq!(holds, 1, \"Should hold when no markets\");"
    ∷ "}"
    ∷ ""
    ∷ ""
    ∷ [])
