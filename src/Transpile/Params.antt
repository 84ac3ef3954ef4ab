-- ===== src/Transpile/Params.antt =====
-- The parameters of a strategy as Rust constants: `param_to_rust` of pmstrat/pmstrat/transpile.py.
use Prim.Native.String.{◌++◌}
use pmt.Prelude.{String, Bool, List, [], ◌∷◌, map, if◌then◌else◌}
use pmt.Dict.{Dict}
use pmt.Transpile.Texts.{join, unlines}

-- A value. A number, and a value of another type, has the text that Python's `str` gives; a
-- sequence inside of a sequence is such a value.
pub data Atom : Type 0 where
  decimal_value : String → Atom
  bool_value : Bool → Atom
  int_value : String → Atom
  float_value : String → Atom
  text_value : String → Atom
  other_value : String → Atom

-- The value of a parameter: one value, or a list or tuple of them.
pub data Value : Type 0 where
  scalar : Atom → Value
  sequence : List Atom → Value

-- `str(value)`
unfoldable pub shown_value : Atom → String
shown_value (decimal_value text) = text
shown_value (bool_value b) = if b then "True" else "False"
shown_value (int_value text) = text
shown_value (float_value text) = text
shown_value (text_value text) = text
shown_value (other_value text) = text

abbrev pub quoted : Atom → String
quoted value = "\"" ++ shown_value value ++ "\""

abbrev pub decimal_literal : Atom → String
decimal_literal value = "dec!(" ++ shown_value value ++ ")"

abbrev pub items_of : (Atom → String) → List Atom → String
items_of print values = "&[" ++ join ", " (map print values) ++ "]"

-- The type and the literal of a sequence that is not empty, by its first element.
unfoldable pub sequence_to_rust : Atom → List Atom → String × String
sequence_to_rust (decimal_value text) values = ("&[Decimal]", items_of decimal_literal values)
sequence_to_rust (bool_value b) values = ("&[i64]", items_of shown_value values)
sequence_to_rust (int_value text) values = ("&[i64]", items_of shown_value values)
sequence_to_rust (float_value text) values = ("&[f64]", items_of shown_value values)
sequence_to_rust _ values = ("&[&str]", items_of quoted values)

-- The type and the literal.
unfoldable pub param_to_rust : String → Value → String × String
param_to_rust name (scalar (decimal_value text)) = ("Decimal", decimal_literal (decimal_value text))
param_to_rust name (scalar (bool_value b)) = ("bool", if b then "true" else "false")
param_to_rust name (scalar (int_value text)) = ("i64", text)
param_to_rust name (scalar (float_value text)) = ("f64", text)
param_to_rust name (scalar (text_value text)) = ("&str", quoted (text_value text))
param_to_rust name (scalar (other_value text)) = ("&str", quoted (other_value text))
param_to_rust name (sequence []) = ("&[&str]", "&[]")
param_to_rust name (sequence (first ∷ values)) = sequence_to_rust first (first ∷ values)

unfoldable pub constant_line : String × Value → String
constant_line (name, value) =
    let rust = param_to_rust name value in
    "const " ++ name ++ ": " ++ rust.0 ++ " = " ++ rust.1 ++ ";"

-- `_generate_constants`
unfoldable pub generate_constants : Dict Value → String
unfolding constant_line
generate_constants [] = ""
generate_constants (param ∷ params) =
    unlines
      ("// Strategy parameters (generated from Python params)" ∷ map constant_line (param ∷ params))
    ++ "\n\n"

-- The parameters that are integers.
unfoldable pub int_params : Dict Value → List String
int_params [] = []
int_params ((name, scalar (int_value text)) ∷ params) = name ∷ int_params params
int_params (param ∷ params) = int_params params
