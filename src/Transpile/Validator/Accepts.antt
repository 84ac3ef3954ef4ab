-- ===== src/Transpile/Validator/Accepts.antt =====
-- Which trees the validator accepts.
use text.Mathlib.Text.{◌==◌}
use pmt.Transpile.Texts.{has}
use pmt.Prelude.{
  ◌||◌, ℕ, ◌≡◌, refl, ap, ◌∙◌, Bool, true, false, Option, none, some, String, List, [], ◌∷◌, ◌++◌,
  ◌&&◌, arith, Bool-cases, Option-cases, inl, inr, if◌then◌else◌,
}
use pmt.Transpile.Syntax.{
  Expr, name, constant, call, attribute, compare, bool_op, bin_op, unary_op, list, tuple, subscript,
  if_exp, comprehension, lambda, yield, yield_from, other, Exprs, none_left, item, Keywords,
  no_keywords, keyword, Comparisons, end, against, Stmt, return, assign, ann_assign, aug_assign,
  if_stmt, for_stmt, expr_stmt, continue, break, function_def, async_function_def, class_def,
  import, import_from, global, nonlocal, assert, refused, other_stmt, Stmts, done, then_stmt,
  list_comp, set_comp, dict_comp, generator_exp, Refused, with_stmt, try, raise_stmt, match,
}
use pmt.Transpile.Reports.{
  is_allowed, allowed_modules, Report, ◌then◌, import_warnings, import_from_warning, refused_error,
}
use pmt.Transpile.Validator.{
  visit_expr, visit_exprs, visit_keywords, visit_comparisons, visit_option, visit_stmt, visit_stmts,
  builtin, builtin_error, is_comprehension, argument_errors,
}
use pmt.Transpile.Validator.Nodes.{
  Node, expression, statement, nodes, nodes_of_exprs, nodes_of_keywords, nodes_of_comparisons,
  nodes_of_option, children, nodes_of_stmts, permitted, all_permitted,
}
use pmt.Transpile.Validator.Judges.{
  is_empty, is_empty-append, all_permitted-append, Judges, both, silent, below, refusal,
}

abbrev is_none : {A : Type 0} → Option A → Bool
is_none none = true
is_none (some x) = false

comprehension-not_permitted :
    (e : Expr) → is_comprehension e ≡ true → all_permitted (nodes e) ≡ false
unfolding is_comprehension nodes permitted
comprehension-not_permitted (comprehension kind line parts) h = refl
comprehension-not_permitted _ h = cc

is_empty-argument_errors :
    (line : ℕ) (args : Exprs)
    → all_permitted (nodes_of_exprs args)
      ≡ (is_empty (argument_errors line args).errors && all_permitted (nodes_of_exprs args))
unfolding argument_errors nodes_of_exprs
is_empty-argument_errors line none_left = refl
is_empty-argument_errors line (item e es) = elim (Bool-cases (is_comprehension e)) [
  | inl h ↦ rw h (
      all_permitted-append (nodes e) (nodes_of_exprs es)
      ∙ ground (arith, comprehension-not_permitted e h))
  | inr h ↦ rw h (
      ground (
        arith,
        all_permitted-append (nodes e) (nodes_of_exprs es),
        is_empty-argument_errors line es,
      ))
]

-- The errors for arguments that are comprehensions add nothing.
with_arguments :
    (line : ℕ) (args : Exprs) (fs ks : List Node) (f a k : Report)
    → Judges f fs
    → Judges a (nodes_of_exprs args)
    → Judges k ks
    → Judges (argument_errors line args then f then a then k) (fs ++ (nodes_of_exprs args ++ ks))
with_arguments line args fs ks f a k p q r = record {
  judged =
      is_empty-append (argument_errors line args).errors (f then a then k).errors
      ∙ ground (
        arith,
        (both p (both q r)).judged,
        is_empty-argument_errors line args,
        all_permitted-append fs (nodes_of_exprs args ++ ks),
        all_permitted-append (nodes_of_exprs args) ks,
      );
}

permitted-call :
    (line : ℕ) (func : Expr) (args : Exprs) (kws : Keywords)
    → permitted (expression (call line func args kws)) ≡ is_none (builtin func)
unfolding permitted builtin
permitted-call line (name id) args kws = ground arith
permitted-call line _ args kws = refl

call-Judges :
    (line : ℕ) (func : Expr) (args : Exprs) (kws : Keywords) (fs ks : List Node) (f a k : Report)
    → Judges f fs
    → Judges a (nodes_of_exprs args)
    → Judges k ks
    → Judges
        (builtin_error line (builtin func) then argument_errors line args then f then a then k)
        (expression (call line func args kws) ∷ (fs ++ (nodes_of_exprs args ++ ks)))
call-Judges line func args kws fs ks f a k p q r = elim (Option-cases (builtin func)) [
  | inl e ↦ rw e (
      below (permitted-call line func args kws ∙ ap is_none e)
        (with_arguments line args fs ks f a k p q r))
  | inr (id, e) ↦ rw e (
      refusal (fs ++ (nodes_of_exprs args ++ ks)) (permitted-call line func args kws ∙ ap is_none e)
        refl)
]

mutual
  unfolding nodes nodes_of_exprs nodes_of_keywords nodes_of_comparisons visit_expr visit_exprs
      visit_keywords visit_comparisons permitted

  visit_expr-Judges : (e : Expr) → Judges (visit_expr e) (nodes e)
  visit_expr-Judges (name id) = below refl silent
  visit_expr-Judges (constant c) = below refl silent
  visit_expr-Judges (call line func args kws) =
      call-Judges line func args kws (nodes func) (nodes_of_keywords kws) (visit_expr func)
        (visit_exprs args) (visit_keywords kws) (visit_expr-Judges func) (visit_exprs-Judges args)
        (visit_keywords-Judges kws)
  visit_expr-Judges (attribute object attr) = below refl (visit_expr-Judges object)
  visit_expr-Judges (compare left comparisons) =
      below refl (both (visit_expr-Judges left) (visit_comparisons-Judges comparisons))
  visit_expr-Judges (bool_op op values) = below refl (visit_exprs-Judges values)
  visit_expr-Judges (bin_op left op right) =
      below refl (both (visit_expr-Judges left) (visit_expr-Judges right))
  visit_expr-Judges (unary_op op operand) = below refl (visit_expr-Judges operand)
  visit_expr-Judges (list elts) = below refl (visit_exprs-Judges elts)
  visit_expr-Judges (tuple elts) = below refl (visit_exprs-Judges elts)
  visit_expr-Judges (subscript object index) =
      below refl (both (visit_expr-Judges object) (visit_expr-Judges index))
  visit_expr-Judges (if_exp test body orelse) =
      below refl
        (both (visit_expr-Judges test) (both (visit_expr-Judges body) (visit_expr-Judges orelse)))
  visit_expr-Judges (comprehension list_comp line parts) = refusal (nodes_of_exprs parts) refl refl
  visit_expr-Judges (comprehension set_comp line parts) = refusal (nodes_of_exprs parts) refl refl
  visit_expr-Judges (comprehension dict_comp line parts) = refusal (nodes_of_exprs parts) refl refl
  visit_expr-Judges (comprehension generator_exp line parts) =
      refusal (nodes_of_exprs parts) refl refl
  visit_expr-Judges (lambda line parts) = refusal (nodes_of_exprs parts) refl refl
  visit_expr-Judges (yield line parts) = refusal (nodes_of_exprs parts) refl refl
  visit_expr-Judges (yield_from line parts) = refusal (nodes_of_exprs parts) refl refl
  visit_expr-Judges (other class_name parts) = below refl (visit_exprs-Judges parts)

  visit_exprs-Judges : (es : Exprs) → Judges (visit_exprs es) (nodes_of_exprs es)
  visit_exprs-Judges none_left = silent
  visit_exprs-Judges (item e es) = both (visit_expr-Judges e) (visit_exprs-Judges es)

  visit_keywords-Judges : (kws : Keywords) → Judges (visit_keywords kws) (nodes_of_keywords kws)
  visit_keywords-Judges no_keywords = silent
  visit_keywords-Judges (keyword arg e kws) = both (visit_expr-Judges e) (visit_keywords-Judges kws)

  visit_comparisons-Judges :
      (cs : Comparisons) → Judges (visit_comparisons cs) (nodes_of_comparisons cs)
  visit_comparisons-Judges end = silent
  visit_comparisons-Judges (against op e cs) =
      both (visit_expr-Judges e) (visit_comparisons-Judges cs)

visit_option-Judges : (o : Option Expr) → Judges (visit_option o) (nodes_of_option o)
unfolding visit_option nodes_of_option
visit_option-Judges none = silent
visit_option-Judges (some e) = visit_expr-Judges e

import-silent : (line : ℕ) (names : List String) → Judges (import_warnings line names) []
unfolding import_warnings
import-silent line [] = silent
import-silent line (id ∷ names) =
    elim (Bool-cases (has ("decimal" ∷ "pmstrat" ∷ "datetime" ∷ []) id)) [
      | inl e ↦ rw e (import-silent line names)
      | inr e ↦ rw e (record { judged = (import-silent line names).judged })
    ]

import_from-silent : (line : ℕ) (o : Option String) → Judges (import_from_warning line o) []
unfolding import_from_warning
import_from-silent line none = silent
import_from-silent line (some id) = elim (Bool-cases (id == "" || is_allowed id allowed_modules)) [
  | inl e ↦ rw e silent
  | inr e ↦ rw e (record { judged = refl })
]

refused-Judges :
    (kind : Refused) (line : ℕ) (inside : Bool) (parts : Exprs) (body : Stmts) (ns : List Node)
    → Judges (refused_error kind line) (statement inside (refused kind line parts body) ∷ ns)
unfolding permitted
refused-Judges with_stmt line inside parts body ns = refusal ns refl refl
refused-Judges try line inside parts body ns = refusal ns refl refl
refused-Judges raise_stmt line inside parts body ns = refusal ns refl refl
refused-Judges match line inside parts body ns = refusal ns refl refl

mutual
  unfolding children nodes_of_stmts visit_stmt visit_stmts permitted

  visit_stmt-Judges :
      (inside : Bool) (stmt : Stmt)
      → Judges (visit_stmt inside stmt) (statement inside stmt ∷ children inside stmt)
  visit_stmt-Judges inside (return value) = below refl (visit_option-Judges value)
  visit_stmt-Judges inside (assign targets value) =
      below refl (both (visit_exprs-Judges targets) (visit_expr-Judges value))
  visit_stmt-Judges inside (ann_assign target annotation value) = below refl (
      both (visit_expr-Judges target)
        (both (visit_expr-Judges annotation) (visit_option-Judges value)))
  visit_stmt-Judges inside (aug_assign target op value) =
      below refl (both (visit_expr-Judges target) (visit_expr-Judges value))
  visit_stmt-Judges inside (if_stmt test body orelse) = below refl (
      both (visit_expr-Judges test)
        (both (visit_stmts-Judges inside body) (visit_stmts-Judges inside orelse)))
  visit_stmt-Judges inside (for_stmt target iter body orelse) = below refl (
      both (visit_expr-Judges target) (
        both (visit_expr-Judges iter)
          (both (visit_stmts-Judges inside body) (visit_stmts-Judges inside orelse))))
  visit_stmt-Judges inside (expr_stmt e) = below refl (visit_expr-Judges e)
  visit_stmt-Judges inside continue = below refl silent
  visit_stmt-Judges inside break = below refl silent
  visit_stmt-Judges true (function_def line id args body decorators) =
      refusal (children true (function_def line id args body decorators)) refl refl
  visit_stmt-Judges false (function_def line id args body decorators) = below refl (
      both (visit_exprs-Judges args)
        (both (visit_stmts-Judges true body) (visit_exprs-Judges decorators)))
  visit_stmt-Judges inside (async_function_def line id body) =
      refusal (nodes_of_stmts true body) refl refl
  visit_stmt-Judges inside (class_def line id body) = refusal (nodes_of_stmts inside body) refl refl
  visit_stmt-Judges inside (import line names) = below refl (import-silent line names)
  visit_stmt-Judges inside (import_from line id) = below refl (import_from-silent line id)
  visit_stmt-Judges inside (global line names) = refusal [] refl refl
  visit_stmt-Judges inside (nonlocal line names) = refusal [] refl refl
  visit_stmt-Judges inside (assert line parts) = below refl (record { judged = refl })
  visit_stmt-Judges inside (refused kind line parts body) =
      refused-Judges kind line inside parts body (children inside (refused kind line parts body))
  visit_stmt-Judges inside (other_stmt class_name parts body orelse) = below refl (
      both (visit_exprs-Judges parts)
        (both (visit_stmts-Judges inside body) (visit_stmts-Judges inside orelse)))

  visit_stmts-Judges :
      (inside : Bool) (stmts : Stmts)
      → Judges (visit_stmts inside stmts) (nodes_of_stmts inside stmts)
  visit_stmts-Judges inside done = silent
  visit_stmts-Judges inside (then_stmt stmt stmts) =
      both (visit_stmt-Judges inside stmt) (visit_stmts-Judges inside stmts)

-- The validator reports no error for a list of statements, inside a function or outside of one,
-- exactly if every node of it is permitted: no call of an unsupported built-in function, no
-- comprehension, lambda or `yield`, no function inside of a function, and no asynchronous function,
-- class, `global`, `nonlocal`, `with`, `try`, `raise` or `match`, at any depth outside of `assert`.
pub is_empty-visit_stmts :
    (inside : Bool) (stmts : Stmts)
    → is_empty (visit_stmts inside stmts).errors ≡ all_permitted (nodes_of_stmts inside stmts)
is_empty-visit_stmts inside stmts = (visit_stmts-Judges inside stmts).judged
