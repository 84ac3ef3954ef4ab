-- ===== src/Transpile/Statements/Sound.antt =====
-- The statements that assign to something, and attributes of variables to names, and in which every
-- `Decimal(...)` has an argument; and what the preprocessing makes of a list of them.
use pmt.Prelude.{
  String, ◌≡◌, refl, Bool, true, false, Option, none, some, ◌&&◌, ◌||◌, arith, Bool-cases, inl, inr,
}
use text.Mathlib.Text.{◌==◌}
use pmt.Transpile.Texts.{has}
use pmt.Transpile.Terms.{option_level_attrs, option_decimal_attrs}
use pmt.Transpile.Syntax.{
  null, is, eq_op, Expr, name, constant, attribute, compare, none_left, item, end, against, Stmt,
  return, assign, ann_assign, aug_assign, if_stmt, for_stmt, expr_stmt, continue, Stmts, done,
  then_stmt,
}
use pmt.Transpile.Expressions.Total.{decimals}
use pmt.Transpile.Options.{
  Action, returns, continues, MatchUnwrap, none_check, name_check, attr_check, name_assign,
  attr_value, Pending, set_pending, Found, with_next, kept, taken, stays, taken_or_stays, take_attr,
  find_taken, kept_or, find_kept, with_next_or, find_next, find_pattern,
}

abbrev pub decimals_in_option : Option Expr → Bool
decimals_in_option none = true
decimals_in_option (some e) = decimals e

-- `x.attr` is assigned to names only.
abbrev pub takes_name : Expr → Expr → Bool
takes_name (name id) value = true
takes_name target (attribute (name obj) attr) = false
takes_name target value = true

unfoldable mutual
  pub is_sound : Stmt → Bool
  is_sound (return value) = decimals_in_option value
  is_sound (assign none_left value) = false
  is_sound (assign (item target targets) value) =
      decimals target && (decimals value && takes_name target value)
  is_sound (ann_assign target annotation none) = true
  is_sound (ann_assign target annotation (some value)) = decimals target && decimals value
  is_sound (aug_assign target op value) = decimals target && decimals value
  is_sound (if_stmt test body orelse) = decimals test && (are_sound body && are_sound orelse)
  is_sound (for_stmt target iter body orelse) = decimals target && (decimals iter && are_sound body)
  is_sound (expr_stmt e) = decimals e
  is_sound _ = true

  pub are_sound : Stmts → Bool
  are_sound done = true
  are_sound (then_stmt stmt stmts) = is_sound stmt && are_sound stmts

abbrev pub action_sound : Action → Bool
action_sound (returns value) = decimals_in_option value
action_sound continues = true

abbrev option_sound : Option Action → Bool
option_sound none = true
option_sound (some action) = action_sound action

abbrev check_sound : Option (Expr × Action) → Bool
check_sound none = true
check_sound (some (left, action)) = action_sound action

abbrev attr_sound : Option (String × String × Action) → Bool
attr_sound none = true
attr_sound (some (obj, attr, action)) = action_sound action

abbrev assign_sound : Option (String × Expr) → Bool
assign_sound none = true
assign_sound (some (var_name, value)) = decimals value

abbrev pub IsSoundUnwrap : MatchUnwrap → Type 0
IsSoundUnwrap m = (decimals m.option_expr ≡ true) × (action_sound m.action ≡ true)

abbrev pub IsSoundPending : Pending → Type 0
IsSoundPending p = (obj attr : String) → option_sound (p obj attr) ≡ true

abbrev pub IsSoundFound : Found → Type 0
IsSoundFound (with_next m) = IsSoundUnwrap m
IsSoundFound (kept obj attr action) = action_sound action ≡ true
IsSoundFound (taken obj attr m) = IsSoundUnwrap m
IsSoundFound stays = Unit

none_check_sound : (stmt : Stmt) → is_sound stmt ≡ true → check_sound (none_check stmt) ≡ true
unfolding none_check is_sound are_sound
none_check_sound
      (if_stmt (compare left (against is (constant null) end)) (then_stmt (return value) done) done)
      h =
    ground arith
none_check_sound
      (if_stmt
        (compare left (against eq_op (constant null) end))
        (then_stmt (return value) done)
        done)
      h =
    ground arith
none_check_sound
      (if_stmt (compare left (against is (constant null) end)) (then_stmt continue done) done) h =
    refl
none_check_sound
      (if_stmt (compare left (against eq_op (constant null) end)) (then_stmt continue done) done)
      h =
    refl
none_check_sound _ h = refl

name_assign_sound : (stmt : Stmt) → is_sound stmt ≡ true → assign_sound (name_assign stmt) ≡ true
unfolding name_assign is_sound
name_assign_sound (assign (item (name id) none_left) value) h = ground arith
name_assign_sound _ h = refl

name_check_sound :
    (var_name : String) (o : Option (Expr × Action))
    → check_sound o ≡ true
    → option_sound (name_check var_name o) ≡ true
unfolding name_check
name_check_sound var_name (some (name id, action)) h = ground arith
name_check_sound var_name _ h = refl

attr_check_sound :
    (o : Option (Expr × Action)) → check_sound o ≡ true → attr_sound (attr_check o) ≡ true
unfolding attr_check
attr_check_sound (some (attribute (name obj) attr, action)) h =
    elim (Bool-cases (has option_level_attrs attr || has option_decimal_attrs attr)) [
      | inl e ↦ rw e h
      | inr e ↦ rw e refl
    ]
attr_check_sound _ h = refl

taken_or_stays_sound :
    (var_name : String) (value : Expr) (obj attr : String) (o : Option Action)
    → decimals value ≡ true
    → option_sound o ≡ true
    → IsSoundFound (taken_or_stays var_name value obj attr o)
taken_or_stays_sound var_name value obj attr none h k = tt
taken_or_stays_sound var_name value obj attr (some action) h k = (h, k)

kept_or_sound :
    (o : Option (String × String × Action)) (found : Found)
    → attr_sound o ≡ true
    → IsSoundFound found
    → IsSoundFound (kept_or o found)
kept_or_sound none found h k = k
kept_or_sound (some (obj, attr, action)) found h k = h

with_next_or_sound :
    (var_name : String) (value : Expr) (o : Option Action) (found : Found)
    → decimals value ≡ true
    → option_sound o ≡ true
    → IsSoundFound found
    → IsSoundFound (with_next_or var_name value o found)
with_next_or_sound var_name value none found h k l = l
with_next_or_sound var_name value (some action) found h k l = (h, k)

module _ (p : Pending) (ps : IsSoundPending p) where
  take_attr_sound :
      (var_name : String) (value : Expr) (o : Option (String × String))
      → decimals value ≡ true
      → IsSoundFound (take_attr p var_name value o)
  take_attr_sound var_name value none h = tt
  take_attr_sound var_name value (some (obj, attr)) h =
      taken_or_stays_sound var_name value obj attr (p obj attr) h (ps obj attr)

  find_taken_sound :
      (o : Option (String × Expr)) → assign_sound o ≡ true → IsSoundFound (find_taken p o)
  unfolding find_taken
  find_taken_sound none h = tt
  find_taken_sound (some (var_name, value)) h = take_attr_sound var_name value (attr_value value) h

  find_kept_sound : (stmt : Stmt) → is_sound stmt ≡ true → IsSoundFound (find_kept p stmt)
  unfolding find_kept
  find_kept_sound stmt h =
      kept_or_sound (attr_check (none_check stmt)) (find_taken p (name_assign stmt))
        (attr_check_sound (none_check stmt) (none_check_sound stmt h))
        (find_taken_sound (name_assign stmt) (name_assign_sound stmt h))

  find_next_sound :
      (stmt next : Stmt) (o : Option (String × Expr))
      → is_sound stmt ≡ true
      → is_sound next ≡ true
      → assign_sound o ≡ true
      → IsSoundFound (find_next p stmt (some next) o)
  unfolding find_next
  find_next_sound stmt next none h k l = find_kept_sound stmt h
  find_next_sound stmt next (some (var_name, value)) h k l =
      with_next_or_sound var_name value (name_check var_name (none_check next)) (find_kept p stmt) l
        (name_check_sound var_name (none_check next) (none_check_sound next k))
        (find_kept_sound stmt h)

  pub find_pattern_sound :
      (stmt next : Stmt)
      → is_sound stmt ≡ true
      → is_sound next ≡ true
      → IsSoundFound (find_pattern p stmt (some next))
  unfolding find_pattern
  find_pattern_sound stmt next h k =
      find_next_sound stmt next (name_assign stmt) h k (name_assign_sound stmt h)

  pub find_last_sound :
      (stmt : Stmt) → is_sound stmt ≡ true → IsSoundFound (find_pattern p stmt none)
  unfolding find_pattern find_next
  find_last_sound stmt h = find_kept_sound stmt h

  pub set_pending_sound :
      (obj attr : String) (o : Option Action)
      → option_sound o ≡ true
      → IsSoundPending (set_pending obj attr o p)
  set_pending_sound obj attr o h obj' attr' = elim (Bool-cases (obj == obj' && attr == attr')) [
    | inl e ↦ rw e h
    | inr e ↦ rw e (ps obj' attr')
  ]
