-- ===== src/Transpile/Expressions.antt =====
-- The methods of `RustCodeGen` in pmstrat/pmstrat/transpile.py that generate expressions. The
-- argument `strings` is the set `string_vars`. `none` is the IndexError of `Decimal()` without an
-- argument.
pub mod Gives
pub mod Total
use Prim.Native.String.{◌++◌}
use pmt.Prelude.{String, Option, some, List, [], ◌∷◌, ◌>>=◌}
use pmt.Transpile.Texts.{join}
use pmt.Transpile.Syntax.{
  CmpOperator, and_op, or_op, Expr, name, constant, call, attribute, compare, bool_op, bin_op,
  unary_op, list, tuple, subscript, if_exp, comprehension, lambda, yield, yield_from, other, Exprs,
  none_left, item, Keywords, no_keywords, keyword, Comparisons, end, against,
}
use pmt.Transpile.Terms.{gen_name, gen_constant, attribute_of}
use pmt.Transpile.Operators.{
  gen_binop, is_bin_op, wrap_if, compare_texts, unary_text, same_name, if_exp_text,
  comprehension_name, todo,
}
use pmt.Transpile.Calls.{method_call, all_of, named, function_call, borrowed}

unfoldable mutual
  pub gen_expr : List String → Expr → Option String
  gen_expr strings (name id) = some (gen_name id)
  gen_expr strings (constant c) = some (gen_constant c)
  gen_expr strings (call line (attribute object method) args kws) = do
    obj ← gen_expr strings object
    texts ← all_of (gen_exprs strings args)
    refs ← all_of (borrow_string_args strings args)
    some (method_call obj method texts refs)
  gen_expr strings (call line (name func_name) args kws) =
      function_call func_name args (gen_exprs strings args) (named (gen_keywords strings kws))
  gen_expr strings (call line _ args kws) = some "/* unknown call */"
  gen_expr strings (attribute object attr) = do
    obj ← gen_expr strings object
    some (attribute_of obj attr)
  gen_expr strings (compare left comparisons) = do
    l ← gen_expr strings left
    rights ← gen_comparisons strings comparisons
    some (compare_texts l comparisons rights)
  gen_expr strings (bool_op and_op values) = do
    texts ← all_of (gen_exprs strings values)
    some ("(" ++ join " && " texts ++ ")")
  gen_expr strings (bool_op or_op values) = do
    texts ← all_of (gen_exprs strings values)
    some ("(" ++ join " || " texts ++ ")")
  gen_expr strings (bin_op left op right) = do
    l ← gen_expr strings left
    r ← gen_expr strings right
    some (wrap_if (is_bin_op left) l ++ " " ++ gen_binop op ++ " " ++ wrap_if (is_bin_op right) r)
  gen_expr strings (unary_op op operand) = do
    text ← gen_expr strings operand
    some (unary_text op text)
  gen_expr strings (list elts) = do
    texts ← all_of (gen_exprs strings elts)
    some ("vec![" ++ join ", " texts ++ "]")
  gen_expr strings (tuple elts) = todo "Tuple"
  gen_expr strings (subscript object index) = do
    obj ← gen_expr strings object
    idx ← gen_expr strings index
    some (obj ++ ".get(&" ++ idx ++ ")")
  gen_expr strings (if_exp test body orelse) = do
    t ← gen_expr strings test
    b ← gen_expr strings body
    o ← gen_expr strings orelse
    some (if_exp_text (same_name test body) t b o)
  gen_expr strings (comprehension kind line parts) = todo (comprehension_name kind)
  gen_expr strings (lambda line parts) = todo "Lambda"
  gen_expr strings (yield line parts) = todo "Yield"
  gen_expr strings (yield_from line parts) = todo "YieldFrom"
  gen_expr strings (other class_name parts) = todo class_name

  pub gen_exprs : List String → Exprs → List (Option String)
  gen_exprs strings none_left = []
  gen_exprs strings (item e es) = gen_expr strings e ∷ gen_exprs strings es

  pub borrow_string_args : List String → Exprs → List (Option String)
  borrow_string_args strings none_left = []
  borrow_string_args strings (item e es) =
      borrowed strings e (gen_expr strings e) ∷ borrow_string_args strings es

  pub gen_keywords : List String → Keywords → List (Option String × Option String)
  gen_keywords strings no_keywords = []
  gen_keywords strings (keyword arg e kws) = (arg, gen_expr strings e) ∷ gen_keywords strings kws

  pub gen_comparisons : List String → Comparisons → Option (List (CmpOperator × String))
  gen_comparisons strings end = some []
  gen_comparisons strings (against op e comparisons) = do
    text ← gen_expr strings e
    texts ← gen_comparisons strings comparisons
    some ((op, text) ∷ texts)
