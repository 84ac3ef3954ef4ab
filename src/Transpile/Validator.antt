-- ===== src/Transpile/Validator.antt =====
-- `StrategyValidator` of pmstrat/pmstrat/transpile.py. A visit returns the errors and the warnings
-- that it appends, in order; `inside` is `_in_function`.
pub mod Nodes
pub mod Judges
pub mod Accepts
use Prim.Native.String.{◌++◌}
use text.Mathlib.Text.{◌==◌, starts_with}
use pmt.Prelude.{
  ℕ, String, Bool, true, false, Option, none, some, List, [], ◌∷◌, ◌||◌, not, if◌then◌else◌,
}
use mathlib.Core.List as List
use pmt.Dict.{Dict, lookup, get_or}
use pmt.Transpile.Texts.{has, join}
use pmt.Transpile.Syntax.{
  Comprehension, list_comp, set_comp, dict_comp, generator_exp, Expr, name, constant, call,
  attribute, compare, bool_op, bin_op, unary_op, list, tuple, subscript, if_exp, comprehension,
  lambda, yield, yield_from, other, Exprs, none_left, item, Keywords, no_keywords, keyword,
  Comparisons, end, against, Refused, with_stmt, try, raise_stmt, match, Stmt, return, assign,
  ann_assign, aug_assign, if_stmt, for_stmt, expr_stmt, continue, break, function_def,
  async_function_def, class_def, import, import_from, global, nonlocal, assert, refused, other_stmt,
  Stmts, done, then_stmt,
}
use pmt.Transpile.Reports.{
  ValidationError, Report, clean, ◌then◌, error, warning, unsupported_builtins, get_builtin_hint,
  comprehension_error, import_warnings, import_from_warning, refused_error,
}

-- The built-in function that a call's function names.
unfoldable pub builtin : Expr → Option String
builtin (name id) = if has unsupported_builtins id then some id else none
builtin _ = none

abbrev pub builtin_error : ℕ → Option String → Report
builtin_error line none = clean
builtin_error line (some id) =
    error line ("Built-in '" ++ id ++ "()' not supported") (get_builtin_hint id)

unfoldable pub is_comprehension : Expr → Bool
is_comprehension (comprehension kind line parts) = true
is_comprehension _ = false

unfoldable pub argument_errors : ℕ → Exprs → Report
argument_errors line none_left = clean
argument_errors line (item e es) =
    (if is_comprehension e
      then error line "Comprehensions as function arguments not supported"
          "Use explicit loops instead of comprehensions."
      else clean)
    then argument_errors line es

unfoldable mutual
  pub visit_expr : Expr → Report
  visit_expr (name id) = clean
  visit_expr (constant c) = clean
  visit_expr (call line func args kws) =
      builtin_error line (builtin func)
      then argument_errors line args
      then visit_expr func
      then visit_exprs args
      then visit_keywords kws
  visit_expr (attribute object attr) = visit_expr object
  visit_expr (compare left comparisons) = visit_expr left then visit_comparisons comparisons
  visit_expr (bool_op op values) = visit_exprs values
  visit_expr (bin_op left op right) = visit_expr left then visit_expr right
  visit_expr (unary_op op operand) = visit_expr operand
  visit_expr (list elts) = visit_exprs elts
  visit_expr (tuple elts) = visit_exprs elts
  visit_expr (subscript object index) = visit_expr object then visit_expr index
  visit_expr (if_exp test body orelse) = visit_expr test then visit_expr body then visit_expr orelse
  visit_expr (comprehension kind line parts) = comprehension_error kind line
  visit_expr (lambda line parts) =
      error line "Lambda function not supported"
        "Define a named function instead or inline the logic."
  visit_expr (yield line parts) =
      error line "'yield' not supported" "Return a list of signals instead of using generators."
  visit_expr (yield_from line parts) =
      error line "'yield from' not supported"
        "Return a list of signals instead of using generators."
  visit_expr (other class_name parts) = visit_exprs parts

  pub visit_exprs : Exprs → Report
  visit_exprs none_left = clean
  visit_exprs (item e es) = visit_expr e then visit_exprs es

  pub visit_keywords : Keywords → Report
  visit_keywords no_keywords = clean
  visit_keywords (keyword arg e kws) = visit_expr e then visit_keywords kws

  pub visit_comparisons : Comparisons → Report
  visit_comparisons end = clean
  visit_comparisons (against op e comparisons) = visit_expr e then visit_comparisons comparisons

unfoldable pub visit_option : Option Expr → Report
visit_option none = clean
visit_option (some e) = visit_expr e

unfoldable mutual
  pub visit_stmt : Bool → Stmt → Report
  visit_stmt inside (return value) = visit_option value
  visit_stmt inside (assign targets value) = visit_exprs targets then visit_expr value
  visit_stmt inside (ann_assign target annotation value) =
      visit_expr target then visit_expr annotation then visit_option value
  visit_stmt inside (aug_assign target op value) = visit_expr target then visit_expr value
  visit_stmt inside (if_stmt test body orelse) =
      visit_expr test then visit_stmts inside body then visit_stmts inside orelse
  visit_stmt inside (for_stmt target iter body orelse) =
      visit_expr target
      then visit_expr iter
      then visit_stmts inside body
      then visit_stmts inside orelse
  visit_stmt inside (expr_stmt e) = visit_expr e
  visit_stmt inside continue = clean
  visit_stmt inside break = clean
  visit_stmt true (function_def line id args body decorators) =
      error line ("Nested function '" ++ id ++ "' not supported")
        "Move helper functions to module level or inline the logic."
  visit_stmt false (function_def line id args body decorators) =
      visit_exprs args then visit_stmts true body then visit_exprs decorators
  visit_stmt inside (async_function_def line id body) =
      error line ("Async function '" ++ id ++ "' not supported")
        "Strategies must be synchronous. The engine handles async I/O."
  visit_stmt inside (class_def line id body) =
      error line ("Class '" ++ id ++ "' not supported")
        "Use plain functions with the @strategy decorator."
  visit_stmt inside (import line names) = import_warnings line names
  visit_stmt inside (import_from line id) = import_from_warning line id
  visit_stmt inside (global line names) =
      error line ("'global' statement not supported: " ++ join ", " names)
        "Use strategy struct fields for state, not module-level variables. Example: Add state to the @strategy decorator's params dict."
  visit_stmt inside (nonlocal line names) =
      error line ("'nonlocal' statement not supported: " ++ join ", " names)
        "Avoid closures with mutable state. Use strategy params instead."
  visit_stmt inside (assert line parts) =
      warning line "'assert' statement will be ignored"
        "Assertions are skipped during transpilation."
  visit_stmt inside (refused kind line parts body) = refused_error kind line
  visit_stmt inside (other_stmt class_name parts body orelse) =
      visit_exprs parts then visit_stmts inside body then visit_stmts inside orelse

  pub visit_stmts : Bool → Stmts → Report
  visit_stmts inside done = clean
  visit_stmts inside (then_stmt stmt stmts) = visit_stmt inside stmt then visit_stmts inside stmts

-- What `ast.parse` gives: a module, or the message and the line of a SyntaxError.
pub data Parsed : Type 0 where
  module_body : Stmts → Parsed
  syntax_error : String → Option ℕ → Parsed

-- `validate`
unfoldable pub validate : Parsed → Report
validate (syntax_error message line) = record {
  errors = record { message = "Syntax error: " ++ message; lineno = line; hint = none } ∷ [];
  warnings = [];
}
validate (module_body body) = visit_stmts false body
