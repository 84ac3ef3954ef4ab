-- ===== src/Transpile/Scan.antt =====
-- The scans of `RustCodeGen` in pmstrat/pmstrat/transpile.py that run before the statements are
-- generated: for the variables that are mutable, and for those that are integers. A set of names is a
-- list with its members, the last added first.
pub mod Mutable
use text.Mathlib.Text.{◌==◌}
use pmt.Prelude.{String, Bool, true, false, Option, none, some, List, [], ◌∷◌, if◌then◌else◌}
use pmt.Transpile.Texts.{has}
use pmt.Transpile.Syntax.{
  Expr, name, call, attribute, compare, Exprs, none_left, item, Comparisons, end, against, Stmt,
  return, assign, ann_assign, aug_assign, if_stmt, for_stmt, expr_stmt, Stmts, done, then_stmt,
}

-- `names.add(name)`
abbrev pub add_name : String → List String → List String
add_name id names = id ∷ names

-- The two sets of the scan: those assigned so far, and those that need `mut`.
pub record Scanned : Type 0 where
  pub assigned : List String
  pub mutable : List String

abbrev pub mutating_methods : List String
mutating_methods = "push" ∷ "append" ∷ "pop" ∷ "clear" ∷ "extend" ∷ []

-- `x.append(...)` and the like: the variable.
unfoldable pub mutated : Expr → Option String
mutated (call line (attribute (name id) method) args kws) =
    if has mutating_methods method then some id else none
mutated _ = none

abbrev pub add_mutable : Option String → Scanned → Scanned
add_mutable none s = s
add_mutable (some id) s = record s { mutable = add_name id s.mutable }

-- The variable of a name.
unfoldable pub name_of : Expr → Option String
name_of (name id) = some id
name_of _ = none

-- The variable that an assignment assigns, if it has one target, a name.
unfoldable pub one_target : Exprs → Option String
one_target (item target none_left) = name_of target
one_target _ = none

-- A first assignment is noted; a second one makes the variable mutable.
unfoldable pub note_assigned : Option String → Scanned → Scanned
note_assigned none s = s
note_assigned (some id) s =
    if has s.assigned id
    then record s { mutable = add_name id s.mutable }
    else record s { assigned = add_name id s.assigned }

unfoldable mutual
  -- `_scan_stmt_mutability`
  pub scan_stmt_mutability : Stmt → Scanned → Scanned
  scan_stmt_mutability (expr_stmt e) s = add_mutable (mutated e) s
  scan_stmt_mutability (aug_assign target op value) s = add_mutable (name_of target) s
  scan_stmt_mutability (assign targets value) s = note_assigned (one_target targets) s
  scan_stmt_mutability (ann_assign target annotation (some value)) s =
      note_assigned (name_of target) s
  scan_stmt_mutability (if_stmt test body orelse) s =
      scan_mutability orelse (scan_mutability body s)
  scan_stmt_mutability (for_stmt target iter body orelse) s = scan_mutability body s
  scan_stmt_mutability _ s = s

  -- `_scan_mutability`
  pub scan_mutability : Stmts → Scanned → Scanned
  scan_mutability done s = s
  scan_mutability (then_stmt stmt stmts) s = scan_mutability stmts (scan_stmt_mutability stmt s)

-- `_check_compare_for_int_vars`, the variables that are added for `int_params`.
unfoldable pub compared_on_right : List String → String → Comparisons → List String → List String
compared_on_right int_params var_name end vars = vars
compared_on_right int_params var_name (against op (name id) comparisons) vars =
    compared_on_right int_params var_name comparisons
      (if has int_params id then add_name var_name vars else vars)
compared_on_right int_params var_name (against op _ comparisons) vars =
    compared_on_right int_params var_name comparisons vars

unfoldable pub compared_on_left : Bool → Comparisons → List String → List String
compared_on_left is_param end vars = vars
compared_on_left is_param (against op (name id) comparisons) vars =
    compared_on_left is_param comparisons (if is_param then add_name id vars else vars)
compared_on_left is_param (against op _ comparisons) vars =
    compared_on_left is_param comparisons vars

unfoldable pub check_compare_for_int_vars : List String → Expr → List String → List String
check_compare_for_int_vars int_params (compare (name id) comparisons) vars =
    compared_on_left (has int_params id) comparisons
      (compared_on_right int_params id comparisons vars)
check_compare_for_int_vars int_params _ vars = vars

unfoldable mutual
  -- `_scan_stmt_int_vars`
  pub scan_stmt_int_vars : List String → Stmt → List String → List String
  scan_stmt_int_vars int_params (if_stmt test body orelse) vars =
      scan_int_vars int_params orelse
        (scan_int_vars int_params body (check_compare_for_int_vars int_params test vars))
  scan_stmt_int_vars int_params (for_stmt target iter body orelse) vars =
      scan_int_vars int_params body vars
  scan_stmt_int_vars int_params (expr_stmt e) vars = check_compare_for_int_vars int_params e vars
  scan_stmt_int_vars int_params _ vars = vars

  -- `_scan_int_vars`
  pub scan_int_vars : List String → Stmts → List String → List String
  scan_int_vars int_params done vars = vars
  scan_int_vars int_params (then_stmt stmt stmts) vars =
      scan_int_vars int_params stmts (scan_stmt_int_vars int_params stmt vars)
