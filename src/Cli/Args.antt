-- ===== src/Cli/Args.antt =====
-- The arguments of the commands of pmstrat/pmstrat/cli.py. `to_float` is Python's `float` of a text, none
-- where it raises.
use Prim.Native.String.{String}
use text.Mathlib.Text.{◌==◌, starts_with}
use pmt.Prelude.{Bool, true, Option, none, some, List, [], ◌∷◌, if◌then◌else◌, ◌>>=◌}
use pmt.Numeric.{Numeric}
use pmt.Clob.Hex.{Integer, natural, to_int}

pub data Command : Type 0 where
  usage : Command
  backtest scan simulate transpile lint : List String → Command
  unknown : String → Command

-- `main`, of the arguments after the name of the program.
unfoldable pub command_of : List String → Command
command_of [] = usage
command_of (command ∷ args) =
    if command == "backtest"
    then backtest args
    else if command == "scan"
    then scan args
    else if command == "simulate"
    then simulate args
    else if command == "transpile"
    then transpile args
    else if command == "lint"
    then lint args
    else unknown command

abbrev pub is_option : String → Bool
is_option arg = starts_with arg "--"

pub record BacktestArgs : Type 0 where
  pub strategy_path : Option String
  pub data_path : Option String
  pub num_ticks : Integer

abbrev pub backtest_defaults : BacktestArgs
backtest_defaults = record { strategy_path = none; data_path = none; num_ticks = natural 500 }

-- An argument that is no option is the path of the strategy.
abbrev pub with_path : String → BacktestArgs → BacktestArgs
with_path arg a = if is_option arg then a else record a { strategy_path = some arg }

-- The loop over the arguments of `backtest`, none where `int` raises.
unfoldable pub parse_backtest : List String → BacktestArgs → Option BacktestArgs
parse_backtest [] a = some a
parse_backtest (arg ∷ []) a = some (with_path arg a)
parse_backtest (arg ∷ value ∷ rest) a =
    let with_data = parse_backtest rest (record a { data_path = some value }) in
    let with_ticks =
      to_int value >>= (λ num_ticks. parse_backtest rest (record a { num_ticks = num_ticks })) in
    let with_other = parse_backtest (value ∷ rest) (with_path arg a) in
    if arg == "--data" then with_data else if arg == "--ticks" then with_ticks else with_other

-- The loop over the arguments of `simulate`: the number of ticks.
unfoldable pub parse_simulate : List String → Integer → Option Integer
parse_simulate [] num_ticks = some num_ticks
parse_simulate (arg ∷ []) num_ticks = some num_ticks
parse_simulate (arg ∷ value ∷ rest) num_ticks =
    let with_ticks = to_int value >>= (λ n. parse_simulate rest n) in
    let others = parse_simulate (value ∷ rest) num_ticks in
    if arg == "--ticks" then with_ticks else others

-- `run_simulate` runs a backtest with the number of ticks, as `str` prints it.
unfoldable pub simulate_args : (Integer → String) → List String → Option (List String)
simulate_args print_int args = do
  num_ticks ← parse_simulate args (natural 500)
  some ("--ticks" ∷ print_int num_ticks ∷ [])

pub record ScanArgs (F : Type 0) : Type 0 where
  pub min_price : F
  pub max_hours : F

module _ {F : Type 0} ⦃f : Numeric F⦄ where
  abbrev pub scan_defaults : ScanArgs F
  scan_defaults = record { min_price = f.lit 950 1; max_hours = f.lit 20 1 }

  -- The loop over the arguments of `scan`, none where `float` raises.
  unfoldable pub parse_scan : (String → Option F) → List String → ScanArgs F → Option (ScanArgs F)
  parse_scan to_float [] a = some a
  parse_scan to_float (arg ∷ []) a = some a
  parse_scan to_float (arg ∷ value ∷ rest) a =
      let with_price =
        to_float value >>= (λ p. parse_scan to_float rest (record a { min_price = p })) in
      let with_hours =
        to_float value >>= (λ h. parse_scan to_float rest (record a { max_hours = h })) in
      let others = parse_scan to_float (value ∷ rest) a in
      if arg == "--min-price"
      then with_price
      else if arg == "--max-hours"
      then with_hours
      else others

-- The name of a strategy, and whether all are meant; the last name counts. Other options, also
-- `--force`, are passed over.
pub record NameArgs : Type 0 where
  pub strategy_name : Option String
  pub is_all : Bool

unfoldable pub parse_names : List String → NameArgs → NameArgs
parse_names [] a = a
parse_names (arg ∷ args) a = parse_names args (
    if arg == "--all"
    then record a { is_all = true }
    else if is_option arg
    then a
    else record a { strategy_name = some arg })
