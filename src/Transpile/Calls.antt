-- ===== src/Transpile/Calls.antt =====
-- Calls of methods, signals and functions, from the texts of their parts: `_gen_call` of
-- pmstrat/pmstrat/transpile.py and what it uses.
use Prim.Native.String.{◌++◌}
use mathlib.Core.Option as Option
use text.Mathlib.Text.{◌==◌, starts_with, find?}
use pmt.Prelude.{String, Option, none, some, List, [], ◌∷◌, ◌&&◌, if◌then◌else◌, ◌>>=◌}
use pmt.Dict.{Dict}
use pmt.Transpile.Texts.{join, has}
use pmt.Transpile.Chars.{replace_after}
use pmt.Transpile.Syntax.{Expr, name, constant, Exprs, item}
use pmt.Transpile.Terms.{get, shown}

-- `_gen_call` for a method, from the texts of the object, the arguments, and the arguments as they
-- are borrowed.
unfoldable pub method_call : String → String → List String → List String → String
method_call obj method args borrowed =
    if obj == "ctx" && method == "book"
    then "ctx.order_books.get(" ++ join ", " borrowed ++ ")"
    else if obj == "ctx" && method == "position"
    then "ctx.positions.get(" ++ join ", " borrowed ++ ")"
    else if obj == "ctx" && method == "mid"
    then "ctx.order_books.get(" ++ join ", " borrowed ++ ").and_then(|b| b.mid_price())"
    else if method == "append"
    then obj ++ ".push(" ++ join ", " args ++ ")"
    else if method == "lower"
    then obj ++ ".to_lowercase()"
    else if method == "upper"
    then obj ++ ".to_uppercase()"
    else obj ++ "." ++ method ++ "(" ++ join ", " args ++ ")"

-- `token_id` as an owned text.
unfoldable pub owned : String → String
owned token_id = if starts_with token_id "\"" then token_id else token_id ++ ".to_string()"

unfoldable pub gen_urgency : String → String
gen_urgency urgency = elim (find? urgency "Urgency.") [
  | none ↦ urgency
  | some i ↦ replace_after 0 "Urgency." "Urgency::" urgency
]

-- `_gen_signal_call`, from the texts of the keywords.
unfoldable pub signal_call : String → Dict String → String
unfolding get
signal_call signal_type kwargs =
    "Signal::"
    ++ signal_type
    ++ " { token_id: "
    ++ owned (get kwargs "token_id" "\"\"")
    ++ ", price: "
    ++ get kwargs "price" "dec!(0)"
    ++ ", size: "
    ++ get kwargs "size" "dec!(0)"
    ++ ", urgency: "
    ++ gen_urgency (get kwargs "urgency" "Urgency::Medium")
    ++ " }"

unfoldable pub cancel_call : Dict String → String
unfolding get
cancel_call kwargs = "Signal::Cancel { token_id: " ++ owned (get kwargs "token_id" "\"\"") ++ " }"

unfoldable pub shutdown_call : Dict String → String
unfolding get
shutdown_call kwargs =
    "Signal::Shutdown { reason: " ++ get kwargs "reason" "\"\"" ++ ".to_string() }"

-- The texts of all parts, if none raises.
unfoldable pub all_of : List (Option String) → Option (List String)
all_of [] = some []
all_of (text ∷ texts) = do t ← text; ts ← all_of texts; some (t ∷ ts)

-- The keywords that have a name, by that name.
unfoldable pub named : List (Option String × Option String) → Option (Dict String)
named [] = some []
named ((arg, text) ∷ kws) = do
  t ← text
  kwargs ← named kws
  some (elim arg [ none ↦ kwargs | some k ↦ (k, t) ∷ kwargs ])

-- `Decimal(arg)`, from the arguments and their texts.
unfoldable pub decimal_call : Exprs → List (Option String) → Option String
decimal_call (item (constant c) args) texts = some ("dec!(" ++ shown c ++ ")")
decimal_call args [] = none
decimal_call args (text ∷ texts) = do t ← text; some ("Decimal::from_str(" ++ t ++ ").unwrap()")

-- `_gen_call` for a function's name. The arguments and keywords that are not used are not read.
unfoldable pub function_call :
    String → Exprs → List (Option String) → Option (Dict String) → Option String
function_call func_name args texts kwargs =
    if func_name == "Buy"
    then Option.map (signal_call "Buy") kwargs
    else if func_name == "Sell"
    then Option.map (signal_call "Sell") kwargs
    else if func_name == "Cancel"
    then Option.map (cancel_call) kwargs
    else if func_name == "Hold"
    then some "Signal::Hold"
    else if func_name == "Shutdown"
    then Option.map (shutdown_call) kwargs
    else if func_name == "Decimal"
    then decimal_call args texts
    else if func_name == "list"
    then some "vec![]"
    else Option.map (λ ts. func_name ++ "(" ++ join ", " ts ++ ")") (all_of texts)

-- `_borrow_string_args`, for an argument and its text.
unfoldable pub borrowed : List String → Expr → Option String → Option String
borrowed strings (name id) text = some (if has strings id then "&" ++ id else id)
borrowed strings arg text = text
