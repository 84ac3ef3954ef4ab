-- ===== src/Transpile/Bindings.antt =====
-- Assignments, returns and unwrappings, as `RustCodeGen` in pmstrat/pmstrat/transpile.py writes
-- them. A generator takes the names that are declared and those that hold texts, and returns them
-- with its text; `none` is an exception that an expression raises. `option_vars` and
-- `unwrapped_vars`, which nothing reads, are left out.
use Prim.Native.String.{◌++◌}
use pmt.Prelude.{
  ℕ, String, Bool, true, false, Option, none, some, List, [], ◌∷◌, if◌then◌else◌, ◌>>=◌,
}
use pmt.Transpile.Texts.{indent, has, unlines}
use pmt.Transpile.Syntax.{str, int, Expr, name, constant, attribute, bin_op, none_left, item, Exprs}
use pmt.Transpile.Expressions.{gen_expr}
use pmt.Transpile.Options.{Action, returns, continues, MatchUnwrap}
use pmt.Transpile.Scan.{add_name}
use pmt.Transpile.Terms.{option_level_attrs}
use pmt.Transpile.Operators.{gen_binop}

-- What the scans have found.
pub record Config : Type 0 where
  pub mutable : List String
  pub ints : List String

pub record Env : Type 0 where
  pub declared : List String
  pub strings : List String

abbrev pub Gen : Type 0
Gen = Env → Option (String × Env)

abbrev pub Block : Type 0
Block = Env → Option (List String × Env)

-- `_is_string_type`
unfoldable pub is_string_type : List String → Expr → Bool
is_string_type strings (constant (str text)) = true
is_string_type strings (name id) = has strings id
is_string_type strings _ = false

-- `_gen_int_expr`
unfoldable pub gen_int_expr : List String → Expr → Option String
gen_int_expr strings (constant (int text)) = some text
gen_int_expr strings (bin_op left op right) = do
  l ← gen_int_expr strings left
  r ← gen_int_expr strings right
  some (l ++ " " ++ gen_binop op ++ " " ++ r)
gen_int_expr strings (name id) = some id
gen_int_expr strings e = gen_expr strings e

abbrev pub mut_if : Bool → String
mut_if b = if b then "mut " else ""

-- A value for a variable: with `let` where the variable is new, and noted as declared.
unfoldable pub set_variable :
    Config → ℕ → String → String → String → List String → Env → String × Env
set_variable config level id target value strings env =
    if has env.declared id
    then (indent level ++ target ++ " = " ++ value ++ ";", record env { strings = strings })
    else (
      indent level ++ "let " ++ mut_if (has config.mutable id) ++ target ++ " = " ++ value ++ ";",
      record { declared = add_name id env.declared; strings = strings },
    )

-- `_gen_assign`, for the first target.
unfoldable pub gen_assign : Config → ℕ → Exprs → Expr → Gen
gen_assign config level none_left value env = none
gen_assign config level (item (name id) targets) value env = do
  target ← gen_expr env.strings (name id)
  text ← (if has config.ints id then gen_int_expr env.strings value else gen_expr env.strings value)
  some (
      set_variable config level id target text
        (if is_string_type env.strings value then add_name id env.strings else env.strings) env)
gen_assign config level (item target targets) value env = do
  t ← gen_expr env.strings target
  text ← gen_expr env.strings value
  some (indent level ++ "let " ++ t ++ " = " ++ text ++ ";", env)

-- `_gen_ann_assign`, where there is a value.
unfoldable pub gen_ann_assign : Config → ℕ → Expr → Expr → Gen
gen_ann_assign config level (name id) value env = do
  target ← gen_expr env.strings (name id)
  text ← gen_expr env.strings value
  some (set_variable config level id target text env.strings env)
gen_ann_assign config level target value env = do
  t ← gen_expr env.strings target
  text ← gen_expr env.strings value
  some (indent level ++ "let " ++ t ++ " = " ++ text ++ ";", env)

unfoldable pub gen_return : ℕ → Option Expr → Gen
gen_return level none env = some (indent level ++ "return vec![];", env)
gen_return level (some value) env = do
  text ← gen_expr env.strings value
  some (indent level ++ "return " ++ text ++ ";", env)

-- `_gen_match_unwrap`. `_gen_expr(None)` is a comment.
unfoldable pub none_arm : List String → Action → Option String
none_arm strings continues = some "continue"
none_arm strings (returns none) = some "return /* TODO: NoneType */"
none_arm strings (returns (some value)) = do text ← gen_expr strings value; some ("return " ++ text)

unfoldable pub is_level_attr : Expr → Bool
is_level_attr (attribute object attr) = has option_level_attrs attr
is_level_attr _ = false

unfoldable pub gen_match_unwrap : ℕ → MatchUnwrap → Gen
gen_match_unwrap level m env = do
  option_expr ← gen_expr env.strings m.option_expr
  arm ← none_arm env.strings m.action
  some (
    unlines (
        (indent level ++ "let " ++ m.var_name ++ " = match " ++ option_expr ++ " {")
        ∷ (indent level
            ++ "    Some(v) => "
            ++ (if is_level_attr m.option_expr then "v.price" else "v")
            ++ ",")
        ∷ (indent level ++ "    None => " ++ arm ++ ",")
        ∷ (indent level ++ "};")
        ∷ []),
    env,
  )
