-- ===== src/Transpile/Operators.antt =====
-- Operators, comparisons and conditional expressions, from the texts of their parts, as
-- pmstrat/pmstrat/transpile.py writes them.
use Prim.Native.String.{◌++◌}
use text.Mathlib.Text.{◌==◌}
use pmt.Prelude.{String, Bool, true, false, Option, none, some, List, [], ◌∷◌, if◌then◌else◌}
use pmt.Transpile.Texts.{join}
use pmt.Transpile.Syntax.{
  null, CmpOperator, eq_op, not_eq, lt_op, lt_e, gt_op, gt_e, is, is_not, in_op, not_in,
  BinOperator, add, sub, mult, div, mod_op, UnaryOperator, not_op, u_sub, Expr, name, constant,
  bin_op, Comparisons, end, against, list_comp, set_comp, dict_comp, generator_exp, Comprehension,
}

-- `_gen_binop`: the operators that the table lacks become "+".
unfoldable pub gen_binop : BinOperator → String
gen_binop add = "+"
gen_binop sub = "-"
gen_binop mult = "*"
gen_binop div = "/"
gen_binop mod_op = "%"
gen_binop _ = "+"

-- `_gen_cmpop`: those that the table lacks become "==".
unfoldable pub gen_cmpop : CmpOperator → String
gen_cmpop eq_op = "=="
gen_cmpop not_eq = "!="
gen_cmpop lt_op = "<"
gen_cmpop lt_e = "<="
gen_cmpop gt_op = ">"
gen_cmpop gt_e = ">="
gen_cmpop is = "=="
gen_cmpop is_not = "!="
gen_cmpop in_op = "=="
gen_cmpop not_in = "=="

unfoldable pub is_bin_op : Expr → Bool
is_bin_op (bin_op left op right) = true
is_bin_op _ = false

abbrev pub wrap_if : Bool → String → String
wrap_if nested text = if nested then "(" ++ text ++ ")" else text

unfoldable pub is_null : Expr → Bool
is_null (constant null) = true
is_null _ = false

-- `_gen_compare`, from the text on the left, and the operators with the texts on the right.
unfoldable pub chain : String → List (CmpOperator × String) → List String
chain left [] = left ∷ []
chain left ((op, right) ∷ more) = left ∷ chain (gen_cmpop op ++ " " ++ right) more

abbrev pub one_compare : CmpOperator → Bool → String → String → String
one_compare is true left right = left ++ ".is_none()"
one_compare is_not true left right = left ++ ".is_some()"
one_compare not_eq true left right = left ++ ".is_some()"
one_compare eq_op true left right = left ++ ".is_none()"
one_compare in_op _ left right = right ++ ".contains(" ++ left ++ ")"
one_compare not_in _ left right = "!" ++ right ++ ".contains(" ++ left ++ ")"
one_compare op _ left right = join " " (chain left ((op, right) ∷ []))

unfoldable pub compare_texts : String → Comparisons → List (CmpOperator × String) → String
compare_texts left (against _ comparator end) ((op, right) ∷ []) =
    one_compare op (is_null comparator) left right
compare_texts left comparisons texts = join " " (chain left texts)

unfoldable pub unary_text : UnaryOperator → String → String
unary_text not_op operand = "!" ++ operand
unary_text u_sub operand = "-" ++ operand
unary_text _ operand = operand

-- The test and the body are one name, as in `signals if signals else ...`.
unfoldable pub same_name : Expr → Expr → Option String
same_name (name a) (name b) = if a == b then some a else none
same_name _ _ = none

unfoldable pub if_exp_text : Option String → String → String → String → String
if_exp_text (some var_name) test body orelse =
    "if !" ++ var_name ++ ".is_empty() { " ++ body ++ " } else { " ++ orelse ++ " }"
if_exp_text none test body orelse = "if " ++ test ++ " { " ++ body ++ " } else { " ++ orelse ++ " }"

-- `type(expr).__name__`
abbrev pub comprehension_name : Comprehension → String
comprehension_name list_comp = "ListComp"
comprehension_name set_comp = "SetComp"
comprehension_name dict_comp = "DictComp"
comprehension_name generator_exp = "GeneratorExp"

abbrev pub todo : String → Option String
todo class_name = some ("/* TODO: " ++ class_name ++ " */")
