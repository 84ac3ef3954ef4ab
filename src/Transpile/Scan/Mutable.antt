-- ===== src/Transpile/Scan/Mutable.antt =====
-- Which variables the generated code declares with `mut`.
use Prim.Native.Nat.{◌+◌}
use text.Mathlib.Text.{◌==◌}
use text.Mathlib.TextEquality.{eq_iff}
use mathlib.Core.Path.{subst}
use pmt.Prelude.{
  ℕ, String, ◌≡◌, refl, Bool, true, false, ◌&&◌, Option, none, some, [], ◌||◌, leb, arith,
  if◌then◌else◌,
}
use pmt.Transpile.Texts.{has}
use pmt.Transpile.Syntax.{
  Expr, name, attribute, subscript, list, tuple, other, Exprs, none_left, item, Stmt, Stmts, assign,
  ann_assign, aug_assign, if_stmt, for_stmt, expr_stmt, refused, other_stmt, done, then_stmt,
}
use pmt.Transpile.Scan.{
  Scanned, mutated, name_of, one_target, add_mutable, note_assigned, scan_stmt_mutability,
  scan_mutability,
}

abbrev is_name : String → Option String → Bool
is_name id none = false
is_name id (some var_name) = var_name == id

abbrev count_name : String → Option String → ℕ
count_name id o = if is_name id o then 1 else 0

-- How often a target names a variable, in the elements of tuples and lists too.
unfoldable mutual
  pub target_count : String → Expr → ℕ
  target_count id (name var_name) = count_name id (some var_name)
  target_count id (tuple es) = targets_count id es
  target_count id (list es) = targets_count id es
  target_count id (other kind es) = targets_count id es
  target_count id _ = 0

  pub targets_count : String → Exprs → ℕ
  targets_count id none_left = 0
  targets_count id (item e es) = target_count id e + targets_count id es

-- How often the statements of a function assign a variable, in all their parts: the bodies and the
-- `else` parts of conditionals and of loops of either kind, and the blocks of the other statements.
-- The variable of a `for` loop, which the loop of Rust binds anew, is left out, as are the functions
-- and classes inside, which have variables of their own.
unfoldable mutual
  pub assignments : String → Stmt → ℕ
  assignments id (assign targets value) = targets_count id targets
  assignments id (ann_assign target annotation (some value)) = count_name id (name_of target)
  assignments id (if_stmt test body orelse) = assignments_in id body + assignments_in id orelse
  assignments id (for_stmt target iter body orelse) =
      assignments_in id body + assignments_in id orelse
  assignments id (refused kind line es body) = assignments_in id body
  assignments id (other_stmt kind es body orelse) =
      assignments_in id body + assignments_in id orelse
  assignments id _ = 0

  pub assignments_in : String → Stmts → ℕ
  assignments_in id done = 0
  assignments_in id (then_stmt stmt stmts) = assignments id stmt + assignments_in id stmts

-- Some statement changes a variable in place: by `+=` and the like, or as a call of a method that
-- mutates it.
unfoldable mutual
  pub changes : String → Stmt → Bool
  changes id (expr_stmt e) = is_name id (mutated e)
  changes id (aug_assign target op value) = is_name id (name_of target)
  changes id (if_stmt test body orelse) = changes_in id body || changes_in id orelse
  changes id (for_stmt target iter body orelse) = changes_in id body || changes_in id orelse
  changes id (refused kind line es body) = changes_in id body
  changes id (other_stmt kind es body orelse) = changes_in id body || changes_in id orelse
  changes id _ = false

  pub changes_in : String → Stmts → Bool
  changes_in id done = false
  changes_in id (then_stmt stmt stmts) = changes id stmt || changes_in id stmts

-- One target, which is no tuple or list.
unfoldable pub is_one_target : Exprs → Bool
is_one_target (item (name id) none_left) = true
is_one_target (item (attribute e attr) none_left) = true
is_one_target (item (subscript e index) none_left) = true
is_one_target _ = false

unfoldable pub is_done : Stmts → Bool
is_done done = true
is_done _ = false

-- Statements whose assignments have one target, without `while`, `with` and `try` that hold
-- statements, and without the `else` part of a `for` loop.
unfoldable mutual
  pub is_scanned : Stmt → Bool
  is_scanned (assign targets value) = is_one_target targets
  is_scanned (if_stmt test body orelse) = are_scanned body && are_scanned orelse
  is_scanned (for_stmt target iter body orelse) = are_scanned body && is_done orelse
  is_scanned (refused kind line es body) = is_done body
  is_scanned (other_stmt kind es body orelse) = is_done body && is_done orelse
  is_scanned _ = true

  pub are_scanned : Stmts → Bool
  are_scanned done = true
  are_scanned (then_stmt stmt stmts) = is_scanned stmt && are_scanned stmts

&&-true : (a b : Bool) → (a && b) ≡ true → (a ≡ true) × (b ≡ true)
&&-true true b h = (refl, h)
&&-true false b h = cc

-- What a scan of `n` assignments and `changed` in-place changes adds to a state.
record Adds (id : String) (n : ℕ) (changed : Bool) (s t : Scanned) : Type 0 where
  assigned : has t.assigned id ≡ (has s.assigned id || leb 1 n)
  mutable :
      has t.mutable id
      ≡ (has s.mutable id || (changed || leb 2 (n + (if has s.assigned id then 1 else 0))))

Adds-none : (id : String) (s : Scanned) → Adds id 0 false s s
Adds-none id s = ground arith

Adds-trans :
    (id : String) (n m : ℕ) (a b : Bool) (s t u : Scanned)
    → Adds id n a s t
    → Adds id m b t u
    → Adds id (n + m) (a || b) s u
Adds-trans id n m a b s t u h k = ground arith

note_assigned-Adds :
    (id : String) (o : Option String) (s : Scanned)
    → Adds id (count_name id o) false s (note_assigned o s)
unfolding note_assigned has
note_assigned-Adds id none s = ground arith
note_assigned-Adds id (some var_name) s = ground (arith, eq_iff var_name id)

add_mutable-Adds :
    (id : String) (o : Option String) (s : Scanned) → Adds id 0 (is_name id o) s (add_mutable o s)
unfolding has
add_mutable-Adds id none s = ground arith
add_mutable-Adds id (some var_name) s = ground arith

one_target-count :
    (id : String) (targets : Exprs)
    → is_one_target targets ≡ true
    → count_name id (one_target targets) ≡ targets_count id targets
unfolding is_one_target one_target name_of targets_count target_count
one_target-count id (item (name var_name) none_left) h = omega arith
one_target-count id (item (attribute e attr) none_left) h = refl
one_target-count id (item (subscript e index) none_left) h = refl
one_target-count id _ h = cc

-- Blocks without statements add nothing.
Adds-empty :
    (id : String) (body : Stmts) (s : Scanned)
    → is_done body ≡ true
    → Adds id (assignments_in id body) (changes_in id body) s s
unfolding is_done assignments changes
Adds-empty id done s h = Adds-none id s
Adds-empty id _ s h = cc

mutual
  unfolding scan_stmt_mutability assignments changes is_scanned

  scan_stmt-Adds :
      (id : String) (stmt : Stmt) (s : Scanned)
      → is_scanned stmt ≡ true
      → Adds id (assignments id stmt) (changes id stmt) s (scan_stmt_mutability stmt s)
  scan_stmt-Adds id (expr_stmt e) s h = add_mutable-Adds id (mutated e) s
  scan_stmt-Adds id (aug_assign target op value) s h = add_mutable-Adds id (name_of target) s
  scan_stmt-Adds id (assign targets value) s h =
      subst (λ n. Adds id n false s (note_assigned (one_target targets) s))
        (one_target-count id targets h) (note_assigned-Adds id (one_target targets) s)
  scan_stmt-Adds id (ann_assign target annotation (some value)) s h =
      note_assigned-Adds id (name_of target) s
  scan_stmt-Adds id (if_stmt test body orelse) s h =
      let parts = &&-true (are_scanned body) (are_scanned orelse) h in
      Adds-trans id (assignments_in id body) (assignments_in id orelse) (changes_in id body)
        (changes_in id orelse) s (scan_mutability body s)
        (scan_mutability orelse (scan_mutability body s)) (scan-Adds id body s parts.0)
        (scan-Adds id orelse (scan_mutability body s) parts.1)
  scan_stmt-Adds id (for_stmt target iter body orelse) s h =
      let parts = &&-true (are_scanned body) (is_done orelse) h in
      Adds-trans id (assignments_in id body) (assignments_in id orelse) (changes_in id body)
        (changes_in id orelse) s (scan_mutability body s) (scan_mutability body s)
        (scan-Adds id body s parts.0) (Adds-empty id orelse (scan_mutability body s) parts.1)
  scan_stmt-Adds id (refused kind line es body) s h = Adds-empty id body s h
  scan_stmt-Adds id (other_stmt kind es body orelse) s h =
      let parts = &&-true (is_done body) (is_done orelse) h in
      Adds-trans id (assignments_in id body) (assignments_in id orelse) (changes_in id body)
        (changes_in id orelse) s s s (Adds-empty id body s parts.0) (Adds-empty id orelse s parts.1)
  scan_stmt-Adds id _ s h = Adds-none id s

  scan-Adds :
      (id : String) (stmts : Stmts) (s : Scanned)
      → are_scanned stmts ≡ true
      → Adds id (assignments_in id stmts) (changes_in id stmts) s (scan_mutability stmts s)
  scan-Adds id done s h = Adds-none id s
  scan-Adds id (then_stmt stmt stmts) s h =
      let parts = &&-true (is_scanned stmt) (are_scanned stmts) h in
      Adds-trans id (assignments id stmt) (assignments_in id stmts) (changes id stmt)
        (changes_in id stmts) s (scan_stmt_mutability stmt s)
        (scan_mutability stmts (scan_stmt_mutability stmt s)) (scan_stmt-Adds id stmt s parts.0)
        (scan-Adds id stmts (scan_stmt_mutability stmt s) parts.1)

abbrev pub nothing_scanned : Scanned
nothing_scanned = record { assigned = []; mutable = [] }
