-- ===== src/Transpile/Validator/Nodes.antt =====
-- All nodes of a tree, but for those inside an `assert`, and which of them the validator permits.
use pmt.Prelude.{Bool, true, false, Option, none, some, List, [], ◌∷◌, ◌++◌, ◌&&◌, not}
use pmt.Transpile.Syntax.{
  Expr, name, constant, call, attribute, compare, bool_op, bin_op, unary_op, list, tuple, subscript,
  if_exp, comprehension, lambda, yield, yield_from, other, Exprs, none_left, item, Keywords,
  no_keywords, keyword, Comparisons, end, against, Stmt, return, assign, ann_assign, aug_assign,
  if_stmt, for_stmt, expr_stmt, continue, break, function_def, async_function_def, class_def,
  import, import_from, global, nonlocal, assert, refused, other_stmt, Stmts, done, then_stmt,
}
use pmt.Transpile.Texts.{has}
use pmt.Transpile.Reports.{unsupported_builtins}

-- A statement is noted with whether it stands inside a function.
pub data Node : Type 0 where
  expression : Expr → Node
  statement : Bool → Stmt → Node

unfoldable mutual
  pub nodes : Expr → List Node
  nodes (name id) = expression (name id) ∷ []
  nodes (constant c) = expression (constant c) ∷ []
  nodes (call line func args kws) =
      expression (call line func args kws)
      ∷ (nodes func ++ (nodes_of_exprs args ++ nodes_of_keywords kws))
  nodes (attribute object attr) = expression (attribute object attr) ∷ nodes object
  nodes (compare left comparisons) =
      expression (compare left comparisons) ∷ (nodes left ++ nodes_of_comparisons comparisons)
  nodes (bool_op op values) = expression (bool_op op values) ∷ nodes_of_exprs values
  nodes (bin_op left op right) = expression (bin_op left op right) ∷ (nodes left ++ nodes right)
  nodes (unary_op op operand) = expression (unary_op op operand) ∷ nodes operand
  nodes (list elts) = expression (list elts) ∷ nodes_of_exprs elts
  nodes (tuple elts) = expression (tuple elts) ∷ nodes_of_exprs elts
  nodes (subscript object index) =
      expression (subscript object index) ∷ (nodes object ++ nodes index)
  nodes (if_exp test body orelse) =
      expression (if_exp test body orelse) ∷ (nodes test ++ (nodes body ++ nodes orelse))
  nodes (comprehension kind line parts) =
      expression (comprehension kind line parts) ∷ nodes_of_exprs parts
  nodes (lambda line parts) = expression (lambda line parts) ∷ nodes_of_exprs parts
  nodes (yield line parts) = expression (yield line parts) ∷ nodes_of_exprs parts
  nodes (yield_from line parts) = expression (yield_from line parts) ∷ nodes_of_exprs parts
  nodes (other class_name parts) = expression (other class_name parts) ∷ nodes_of_exprs parts

  pub nodes_of_exprs : Exprs → List Node
  nodes_of_exprs none_left = []
  nodes_of_exprs (item e es) = nodes e ++ nodes_of_exprs es

  pub nodes_of_keywords : Keywords → List Node
  nodes_of_keywords no_keywords = []
  nodes_of_keywords (keyword arg e kws) = nodes e ++ nodes_of_keywords kws

  pub nodes_of_comparisons : Comparisons → List Node
  nodes_of_comparisons end = []
  nodes_of_comparisons (against op e comparisons) = nodes e ++ nodes_of_comparisons comparisons

unfoldable pub nodes_of_option : Option Expr → List Node
nodes_of_option none = []
nodes_of_option (some e) = nodes e

unfoldable mutual
  -- The nodes below a statement.
  pub children : Bool → Stmt → List Node
  children inside (return value) = nodes_of_option value
  children inside (assign targets value) = nodes_of_exprs targets ++ nodes value
  children inside (ann_assign target annotation value) =
      nodes target ++ (nodes annotation ++ nodes_of_option value)
  children inside (aug_assign target op value) = nodes target ++ nodes value
  children inside (if_stmt test body orelse) =
      nodes test ++ (nodes_of_stmts inside body ++ nodes_of_stmts inside orelse)
  children inside (for_stmt target iter body orelse) =
      nodes target ++ (nodes iter ++ (nodes_of_stmts inside body ++ nodes_of_stmts inside orelse))
  children inside (expr_stmt e) = nodes e
  children inside continue = []
  children inside break = []
  children inside (function_def line id args body decorators) =
      nodes_of_exprs args ++ (nodes_of_stmts true body ++ nodes_of_exprs decorators)
  children inside (async_function_def line id body) = nodes_of_stmts true body
  children inside (class_def line id body) = nodes_of_stmts inside body
  children inside (import line names) = []
  children inside (import_from line id) = []
  children inside (global line names) = []
  children inside (nonlocal line names) = []
  children inside (assert line parts) = []
  children inside (refused kind line parts body) =
      nodes_of_exprs parts ++ nodes_of_stmts inside body
  children inside (other_stmt class_name parts body orelse) =
      nodes_of_exprs parts ++ (nodes_of_stmts inside body ++ nodes_of_stmts inside orelse)

  pub nodes_of_stmts : Bool → Stmts → List Node
  nodes_of_stmts inside done = []
  nodes_of_stmts inside (then_stmt stmt stmts) =
      statement inside stmt ∷ (children inside stmt ++ nodes_of_stmts inside stmts)

-- A call of an unsupported built-in function, a comprehension, a lambda and a `yield` are not
-- permitted, and neither are functions inside of functions, asynchronous functions, classes,
-- `global`, `nonlocal`, `with`, `try`, `raise` and `match`.
unfoldable pub permitted : Node → Bool
permitted (expression (call line (name id) args kws)) = not (has unsupported_builtins id)
permitted (expression (comprehension kind line parts)) = false
permitted (expression (lambda line parts)) = false
permitted (expression (yield line parts)) = false
permitted (expression (yield_from line parts)) = false
permitted (expression _) = true
permitted (statement inside (function_def line id args body decorators)) = not inside
permitted (statement inside (async_function_def line id body)) = false
permitted (statement inside (class_def line id body)) = false
permitted (statement inside (global line names)) = false
permitted (statement inside (nonlocal line names)) = false
permitted (statement inside (refused kind line parts body)) = false
permitted (statement inside _) = true

abbrev pub all_permitted : List Node → Bool
all_permitted [] = true
all_permitted (node ∷ rest) = permitted node && all_permitted rest
