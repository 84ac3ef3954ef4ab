-- ===== src/Tests/Commands.antt =====
-- The command line of pmstrat, and the registry of strategies.
use mathlib.Core.List.{Perm, filter_map}
use pmt.Prelude.{String, ◌≡◌, refl, Option, none, some, List, [], ◌∷◌, map}
use pmt.Sort.{Sorted, sort, insert_sorted}
use pmt.Transpile.Params.{Value, Atom}
use pmt.Transpile.Strategy.{Function}
use pmt.Transpile.Registry.{
  RustFile, earlier_module, strategies_of, scan_files, strategy_files, scan_strategy_file,
  find_struct, struct_here, after_prefix, split_word, skip_space, is_word, is_space,
  has_empty_tokens, empty_tokens_here, text_less,
}
use pmt.Transpile.Registry.Entries.{entry_of, strategies_of_registered}
use pmt.Clob.Hex.{natural, int_decimal, from_decimal, to_int}
use pmt.Cli.Args.{backtest_defaults, parse_backtest}
use pmt.Cli.Transpiling.{Files}
use pmt.Cli.Linting.{lint_single_strategy}
use pmt.Cli.Linting.Accepted.{Agrees, lint_single_strategy-Agrees}
use pmt.Tests.Transpiling.{decorated, body, print_nat}

abbrev files : List RustFile
files =
    record { module_name = "spread"; content = "//! x\npub struct Spread {\n tokens: vec![],\n}" }
    ∷ record { module_name = "mod"; content = "pub struct StrategyInfo {" }
    ∷ record { module_name = "bets"; content = "pub struct  Bets {}" }
    ∷ record { module_name = "edge"; content = "pub struct Edge{ }" }
    ∷ []

strategies_of_registered_example :
    Sorted earlier_module (strategies_of files)
    × Perm (strategies_of files) (filter_map entry_of files)
strategies_of_registered_example = strategies_of_registered files

-- Two spaces are not what the scan looks for.
registered : map (λ s. s.struct_name) (strategies_of files) ≡ "Edge" ∷ "Spread" ∷ []
unfolding strategies_of scan_files strategy_files scan_strategy_file find_struct struct_here
    after_prefix split_word skip_space is_word is_space has_empty_tokens empty_tokens_here text_less
    sort insert_sorted
registered = refl

-- Every name has a module with one strategy.
abbrev modules : String → Option (List Function)
modules name = some (decorated body ∷ [])

abbrev halved : Value → Option String
halved value = none

abbrev shown_list : List Atom → String
shown_list values = "[]"

abbrev empty : Files
empty = record { strategies = ("old", "// old") ∷ []; tests = none }

lint_single_strategy-Agrees_example :
    Agrees print_nat halved shown_list modules "edge" empty (lint_single_strategy modules "edge")
lint_single_strategy-Agrees_example =
    lint_single_strategy-Agrees print_nat halved shown_list modules "edge" empty

-- The options of a backtest, in any order.
parsed :
    parse_backtest ("--ticks" ∷ "20" ∷ "edge.py" ∷ "--data" ∷ "ticks.jsonl" ∷ []) backtest_defaults
    ≡ some (record {
      strategy_path = some "edge.py";
      data_path = some "ticks.jsonl";
      num_ticks = natural 20;
    })
unfolding parse_backtest to_int int_decimal from_decimal
parsed = refl
