-- ===== src/Cli/Transpiling/Written.antt =====
-- Which files a run writes.
use text.Mathlib.Text.{◌==◌}
use pmt.Prelude.{ℕ, String, ◌≡◌, true, Bool, false, ◌&&◌, Option, some, List, map}
use pmt.Dict.{Dict, lookup}
use pmt.Transpile.Texts.{has}
use pmt.Transpile.Params.{Value, Atom}
use pmt.Transpile.Strategy.{StrategyMeta, Function}
use pmt.Transpile.Driver.{TranspileResult, returned, transpile}
use pmt.Transpile.Registry.{generate_mod_rs}
use pmt.Cli.Transpiling.{find_strategy, Single, written, rust_file}

-- A strategy was written, after which the run of one name goes on to the registry.
unfoldable pub is_written : Single → Bool
is_written (written has_tests) = true
is_written _ = false

module _ (print_nat : ℕ → String) (halved : Value → Option String) (shown_list : List Atom → String)
    (modules : String → Option (List Function)) where
  -- What a run over some names leaves in the file of a strategy.
  pub data IsWritten (names : List String) (key : String) (before : Option String)
      : Option String → Type 0 where
    kept : {after : Option String} → after ≡ before → IsWritten names key before after
    fresh :
        {after : Option String} {objects : List Function} {func : Function} {meta : StrategyMeta}
        {result : TranspileResult}
        → has names key ≡ true
        → modules key ≡ some objects
        → find_strategy objects ≡ some (func, meta)
        → meta.transpilable ≡ true
        → (transpile print_nat func true true).outcome ≡ returned result
        → after ≡ some result.rust_code
        → IsWritten names key before after

  -- What a whole run leaves in the file of a key, where `transpiled` is the directory after the
  -- strategies: the registry in `mod`, if it is written, and elsewhere what the strategies left.
  pub data IsLeft (regenerates : Bool) (names : List String) (key : String) (before : Option String)
      (transpiled : Dict String) : Option String → Type 0 where
    registry :
        {after : Option String}
        → (regenerates && key == "mod") ≡ true
        → after ≡ some (generate_mod_rs (map rust_file transpiled))
        → IsLeft regenerates names key before transpiled after
    strategy :
        {after : Option String}
        → (regenerates && key == "mod") ≡ false
        → IsWritten names key before after
        → after ≡ lookup key transpiled
        → IsLeft regenerates names key before transpiled after
