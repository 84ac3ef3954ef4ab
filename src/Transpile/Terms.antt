-- ===== src/Transpile/Terms.antt =====
-- Names, constants and attributes: `_gen_name`, `_gen_constant` and `_gen_attribute` of
-- pmstrat/pmstrat/transpile.py.
use Prim.Native.String.{◌++◌}
use text.Mathlib.Text.{◌==◌}
use pmt.Prelude.{String, List, [], ◌∷◌, ◌||◌, if◌then◌else◌}
use pmt.Dict.{Dict, lookup, get_or}
use pmt.Transpile.Texts.{has}
use pmt.Transpile.Syntax.{Constant, str, bool, float, int, null, literal}

abbrev pub option_level_attrs : List String
option_level_attrs = "best_bid" ∷ "best_ask" ∷ []

abbrev pub option_decimal_attrs : List String
option_decimal_attrs = "mid_price" ∷ "spread" ∷ "spread_bps" ∷ "imbalance" ∷ []

abbrev pub decimal_method_attrs : List String
decimal_method_attrs = "ask_size" ∷ "bid_size" ∷ "bid_depth" ∷ "ask_depth" ∷ []

abbrev pub market_string_attrs : List String
market_string_attrs = "question" ∷ "outcome" ∷ "slug" ∷ []

-- `mapping.get(key, default)`
unfoldable pub get : Dict String → String → String → String
get mapping key default = get_or default (lookup key mapping)

unfoldable pub gen_name : String → String
unfolding get
gen_name id =
    get (("True", "true") ∷ ("False", "false") ∷ ("None", "None") ∷ ("signals", "signals") ∷ []) id
      id

unfoldable pub gen_constant : Constant → String
gen_constant (str text) = "\"" ++ text ++ "\".to_string()"
gen_constant (bool b) = if b then "true" else "false"
gen_constant (float text) = text
gen_constant (int text) = "dec!(" ++ text ++ ")"
gen_constant null = "None"
gen_constant (literal text) = text

-- What an f-string shows of a constant's value.
unfoldable pub shown : Constant → String
shown (str text) = text
shown (bool b) = if b then "True" else "False"
shown (float text) = text
shown (int text) = text
shown null = "None"
shown (literal text) = text

-- `_gen_attribute`, for the text of the object.
unfoldable pub attribute_of : String → String → String
unfolding get
attribute_of obj attr =
    if obj == "ctx"
    then get
        (("timestamp", "ctx.timestamp")
          ∷ ("total_pnl", "(ctx.realized_pnl + ctx.unrealized_pnl)")
          ∷ ("total_realized_pnl", "ctx.realized_pnl")
          ∷ ("total_unrealized_pnl", "ctx.unrealized_pnl")
          ∷ ("usdc_balance", "ctx.usdc_balance")
          ∷ [])
        attr ("ctx." ++ attr)
    else if obj == "Urgency"
    then "Urgency::"
      ++ get
          (("LOW", "Low")
            ∷ ("MEDIUM", "Medium")
            ∷ ("HIGH", "High")
            ∷ ("IMMEDIATE", "Immediate")
            ∷ [])
          attr attr
    else if has option_level_attrs attr
        || has option_decimal_attrs attr
        || has decimal_method_attrs attr
    then obj ++ "." ++ attr ++ "()"
    else if has market_string_attrs attr
    then obj ++ "." ++ attr ++ ".clone()"
    else obj ++ "." ++ attr
