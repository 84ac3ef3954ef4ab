-- ===== src/Transpile/TestTexts/Behavior.antt =====
-- The texts of the Rust tests of the behavior of a strategy.
use Prim.Native.String.{◌++◌}
use pmt.Prelude.{String, [], ◌∷◌}
use pmt.Transpile.Texts.{unlines}

unfoldable pub sure_bets_market_test : String → String
sure_bets_market_test struct = unlines (
    "#[test]"
    ∷ "fn test_quotes_qualifying_market() {"
    ∷ ("    let mut strategy = " ++ struct ++ "::new();")
    ∷ "    // High certainty market: ask=0.96, expiring in 24h"
    ∷ "    let ctx = create_context_with_markets(vec!["
    ∷ "        (\"token1\", dec!(0.94), dec!(0.96), 24.0, 1000.0, dec!(0)),"
    ∷ "    ]);"
    ∷ "    let signals = strategy.on_tick(&ctx);"
    ∷ "    let (_, buys, _, holds) = count_signal_types(&signals);"
    ∷ "    assert!(buys >= 1, \"Should place buy order\");"
    ∷ "    assert_eq!(holds, 0, \"Should not hold\");"
    ∷ "}"
    ∷ ""
    ∷ ""
    ∷ [])

unfoldable pub quoted_market_test : String → String
quoted_market_test struct = unlines (
    "#[test]"
    ∷ "fn test_quotes_qualifying_market() {"
    ∷ ("    let mut strategy = " ++ struct ++ "::new();")
    ∷ "    let ctx = create_context_with_markets(vec!["
    ∷ "        (\"token1\", dec!(0.68), dec!(0.72), 48.0, 50000.0, dec!(0)),"
    ∷ "    ]);"
    ∷ "    let signals = strategy.on_tick(&ctx);"
    ∷ "    let (cancels, buys, sells, holds) = count_signal_types(&signals);"
    ∷ "    assert_eq!(cancels, 1, \"Should cancel existing orders\");"
    ∷ "    assert_eq!(buys, 1, \"Should place buy order\");"
    ∷ "    assert_eq!(sells, 1, \"Should place sell order\");"
    ∷ "    assert_eq!(holds, 0, \"Should not hold\");"
    ∷ "}"
    ∷ ""
    ∷ ""
    ∷ [])

unfoldable pub max_position_tests : String → String → String
max_position_tests struct max_pos = unlines (
    "#[test]"
    ∷ "fn test_max_position_only_sells() {"
    ∷ ("    let mut strategy = " ++ struct ++ "::new();")
    ∷ "    let ctx = create_context_with_markets(vec!["
    ∷ ("        (\"token1\", dec!(0.68), dec!(0.72), 48.0, 50000.0, dec!(" ++ max_pos ++ ")),")
    ∷ "    ]);"
    ∷ "    let signals = strategy.on_tick(&ctx);"
    ∷ "    let (cancels, buys, sells, _) = count_signal_types(&signals);"
    ∷ "    assert_eq!(cancels, 1, \"Should cancel\");"
    ∷ "    assert_eq!(buys, 0, \"Should not buy at max position\");"
    ∷ "    assert_eq!(sells, 1, \"Should still sell\");"
    ∷ "}"
    ∷ ""
    ∷ "#[test]"
    ∷ "fn test_max_short_position_only_buys() {"
    ∷ ("    let mut strategy = " ++ struct ++ "::new();")
    ∷ "    let ctx = create_context_with_markets(vec!["
    ∷ ("        (\"token1\", dec!(0.68), dec!(0.72), 48.0, 50000.0, dec!(-" ++ max_pos ++ ")),")
    ∷ "    ]);"
    ∷ "    let signals = strategy.on_tick(&ctx);"
    ∷ "    let (cancels, buys, sells, _) = count_signal_types(&signals);"
    ∷ "    assert_eq!(cancels, 1, \"Should cancel\");"
    ∷ "    assert_eq!(buys, 1, \"Should still buy\");"
    ∷ "    assert_eq!(sells, 0, \"Should not sell at max short\");"
    ∷ "}"
    ∷ ""
    ∷ ""
    ∷ [])

unfoldable pub sure_bets_markets_test : String → String
sure_bets_markets_test struct = unlines (
    "#[test]"
    ∷ "fn test_quotes_multiple_markets() {"
    ∷ ("    let mut strategy = " ++ struct ++ "::new();")
    ∷ "    // Multiple high certainty markets"
    ∷ "    let ctx = create_context_with_markets(vec!["
    ∷ "        (\"token1\", dec!(0.94), dec!(0.96), 24.0, 1000.0, dec!(0)),"
    ∷ "        (\"token2\", dec!(0.95), dec!(0.97), 12.0, 2000.0, dec!(0)),"
    ∷ "        (\"token3\", dec!(0.93), dec!(0.95), 36.0, 1500.0, dec!(0)),"
    ∷ "    ]);"
    ∷ "    let signals = strategy.on_tick(&ctx);"
    ∷ "    let (_, buys, _, _) = count_signal_types(&signals);"
    ∷ "    assert!(buys >= 1, \"Should buy for at least 1 market\");"
    ∷ "}"
    ∷ ""
    ∷ ""
    ∷ [])

unfoldable pub quoted_markets_test : String → String
quoted_markets_test struct = unlines (
    "#[test]"
    ∷ "fn test_quotes_multiple_markets() {"
    ∷ ("    let mut strategy = " ++ struct ++ "::new();")
    ∷ "    let ctx = create_context_with_markets(vec!["
    ∷ "        (\"token1\", dec!(0.68), dec!(0.72), 48.0, 50000.0, dec!(0)),"
    ∷ "        (\"token2\", dec!(0.73), dec!(0.77), 72.0, 30000.0, dec!(0)),"
    ∷ "        (\"token3\", dec!(0.66), dec!(0.70), 96.0, 40000.0, dec!(0)),"
    ∷ "    ]);"
    ∷ "    let signals = strategy.on_tick(&ctx);"
    ∷ "    let (cancels, buys, sells, _) = count_signal_types(&signals);"
    ∷ "    assert!(cancels >= 1, \"Should cancel for at least 1 market\");"
    ∷ "    assert!(buys >= 1, \"Should buy for at least 1 market\");"
    ∷ "    assert!(sells >= 1, \"Should sell for at least 1 market\");"
    ∷ "}"
    ∷ ""
    ∷ ""
    ∷ [])

unfoldable pub instantiation_test : String → String → String
instantiation_test strategy_name struct = unlines (
    "#[test]"
    ∷ "fn test_strategy_instantiation() {"
    ∷ ("    let strategy = " ++ struct ++ "::new();")
    ∷ ("    assert_eq!(strategy.id(), \"" ++ strategy_name ++ "\");")
    ∷ "}"
    ∷ ""
    ∷ [])
