-- ===== src/Cli/Transpiling.antt =====
-- `run_transpile` of pmstrat/pmstrat/cli.py: strategies are transpiled into the directory of the
-- engine, with their tests and the registry.
pub mod Written
use Prim.Native.String.{◌++◌}
use pmt.Prelude.{
  ℕ, suc, String, Bool, true, false, not, Option, none, some, List, [], ◌∷◌, map, if◌then◌else◌,
}
use pmt.Dict.{Dict, insert}
use pmt.Transpile.Params.{Value, Atom}
use pmt.Transpile.Strategy.{StrategyMeta, Function, get_strategy_meta}
use pmt.Transpile.Driver.{TranspileResult, Outcome, returned, Run, transpile}
use pmt.Transpile.TestGenerator.{generate_tests}
use pmt.Transpile.Registry.{RustFile, generate_mod_rs}

-- The `.rs` files of the directories of strategies and of tests, the second of which may be missing, by
-- their names without the suffix.
pub record Files : Type 0 where
  pub strategies : Dict String
  pub tests : Option (Dict String)

-- How `transpile_single_strategy` ends: with a file and perhaps tests, with `SkippedStrategy`, or
-- with another exception.
pub data Single : Type 0 where
  written : Bool → Single
  skipped : Single
  raised : Single

-- The first object of a module that has metadata.
unfoldable pub find_strategy : List Function → Option (Function × StrategyMeta)
find_strategy [] = none
find_strategy (func ∷ funcs) = elim (get_strategy_meta func) [
  | none ↦ find_strategy funcs
  | some meta ↦ some (func, meta)
]

-- The numbers that the summary shows.
pub record Summary : Type 0 where
  pub transpiled : ℕ
  pub skipped : ℕ
  pub tests_generated : ℕ

abbrev pub no_summary : Summary
no_summary = record { transpiled = 0; skipped = 0; tests_generated = 0 }

unfoldable pub counted : Single → Summary → Summary
counted (written has_tests) s = record s {
  transpiled = suc s.transpiled;
  tests_generated = if has_tests then suc s.tests_generated else s.tests_generated;
}
counted skipped s = record s { skipped = suc s.skipped }
counted raised s = s

abbrev pub rust_file : String × String → RustFile
rust_file (module_name, content) = record { module_name = module_name; content = content }

unfoldable pub regenerate_mod_rs : Files → Files
regenerate_mod_rs files = record files {
  strategies = insert "mod" (generate_mod_rs (map rust_file files.strategies)) files.strategies;
}

-- Without it, the registry is written only if the strategy was.
unfoldable pub after_single : Single × Files → Files
after_single (written has_tests, files) = regenerate_mod_rs files
after_single (skipped, files) = files
after_single (raised, files) = files

-- `modules` gives the objects of a strategy's module in the order of `dir`, none where the file is
-- missing or cannot be imported. `print_nat`, `halved` and `shown_list` are as in the generators.
module _ (print_nat : ℕ → String) (halved : Value → Option String) (shown_list : List Atom → String)
    (modules : String → Option (List Function)) where
  unfoldable pub write_tests : String → Option String → Dict String → Files → Single × Files
  write_tests name none tests files = (raised, files)
  write_tests name (some text) tests files =
      (written true, record files { tests = some (insert ("test_" ++ name) text tests) })

  unfoldable pub after_file : String → Function → Option (Dict String) → Files → Single × Files
  after_file name func none files = (written false, files)
  after_file name func (some tests) files =
      write_tests name (generate_tests halved shown_list func) tests files

  -- `transpile_to_file`, and then the tests.
  unfoldable pub write_strategy : String → Function → Outcome → Files → Single × Files
  write_strategy name func (returned result) files =
      after_file name func files.tests
        (record files { strategies = insert name result.rust_code files.strategies })
  write_strategy name func _ files = (raised, files)

  unfoldable pub transpile_found :
      String → Option (Function × StrategyMeta) → Files → Single × Files
  transpile_found name none files = (raised, files)
  transpile_found name (some (func, meta)) files =
      if not meta.transpilable
      then (skipped, files)
      else write_strategy name func (transpile print_nat func true true).outcome files

  unfoldable pub transpile_module : String → Option (List Function) → Files → Single × Files
  transpile_module name none files = (raised, files)
  transpile_module name (some objects) files = transpile_found name (find_strategy objects) files

  unfoldable pub transpile_single_strategy : String → Files → Single × Files
  transpile_single_strategy name files = transpile_module name (modules name) files

  -- The loop over the names of the strategies.
  unfoldable pub transpile_loop : List String → Summary → Files → Summary × Files
  transpile_loop [] summary files = (summary, files)
  transpile_loop (name ∷ names) summary files =
      let (single, after) = transpile_single_strategy name files in
      transpile_loop names (counted single summary) after

  -- With `--all`: every strategy, and then the registry.
  unfoldable pub transpile_all : List String → Files → Summary × Files
  transpile_all names files =
      let (summary, after) = transpile_loop names no_summary files in
      (summary, regenerate_mod_rs after)

  -- With one name.
  unfoldable pub transpile_one : String → Files → Files
  transpile_one name files = after_single (transpile_single_strategy name files)
