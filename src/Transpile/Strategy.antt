-- ===== src/Transpile/Strategy.antt =====
-- The decorator of pmstrat/pmstrat/dsl.py.
use pmt.Prelude.{ℕ, String, Bool, Option, none, some, List, []}
use pmt.Dict.{Dict}
use pmt.Transpile.Params.{Value}
use pmt.Transpile.Validator.{Parsed}

-- `on_tick` is the source of the function, parsed; `on_fill`, which is never set, is left out.
pub record StrategyMeta : Type 0 where
  pub name : String
  pub tokens : List String
  pub tick_interval_ms : ℕ
  pub on_tick : Parsed
  pub params : Dict Value
  pub transpilable : Bool

-- A function: its source, parsed, and the attribute `_strategy_meta`.
pub record Function : Type 0 where
  pub source : Parsed
  pub strategy_meta : Option StrategyMeta

-- `value or []`
abbrev pub or_empty : {A : Type 0} → Option (List A) → List A
or_empty none = []
or_empty (some values) = values

-- `strategy(name, tokens, tick_interval_ms, params, transpilable)` applied to a function. The
-- wrapper has the source of the function that it wraps.
unfoldable pub strategy :
    String → Option (List String) → ℕ → Option (Dict Value) → Bool → Function → Function
strategy name tokens tick_interval_ms params transpilable func = record {
  source = func.source;
  strategy_meta = some (record {
    name = name;
    tokens = or_empty tokens;
    tick_interval_ms = tick_interval_ms;
    on_tick = func.source;
    params = or_empty params;
    transpilable = transpilable;
  });
}

unfoldable pub get_strategy_meta : Function → Option StrategyMeta
get_strategy_meta func = func.strategy_meta
