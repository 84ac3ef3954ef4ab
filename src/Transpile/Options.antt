-- ===== src/Transpile/Options.antt =====
-- `_preprocess_option_patterns` of pmstrat/pmstrat/transpile.py: an assignment and the test for None
-- that returns or continues are combined into one unwrapping of an Option. A test of an attribute is
-- kept until the attribute is assigned. The list may hold anything that shows a statement. An assignment
-- to something other than a name never takes up a test; the code raises AttributeError there.
pub mod RoundTrip
pub mod Lost
use text.Mathlib.Text.{◌==◌}
use pmt.Prelude.{
  String, Bool, true, false, Option, none, some, List, [], ◌∷◌, ◌||◌, ◌&&◌, if◌then◌else◌,
}
use pmt.Transpile.Texts.{has}
use pmt.Transpile.Syntax.{
  null, is, eq_op, Expr, name, constant, attribute, compare, none_left, item, end, against, Stmt,
  return, assign, if_stmt, continue, done, then_stmt,
}
use pmt.Transpile.Terms.{option_level_attrs, option_decimal_attrs}

-- What is done where the value is None: `return ...` with its value, or `continue`.
pub data Action : Type 0 where
  returns : Option Expr → Action
  continues : Action

-- The attribute `return_value`, with `is_continue`, is `action`.
pub record MatchUnwrap : Type 0 where
  pub var_name : String
  pub option_expr : Expr
  pub action : Action

-- A processed statement.
pub data Item {ℓ} (A : Type ℓ) : Type ℓ where
  plain : A → Item A
  unwrap : MatchUnwrap → Item A

-- `_is_none_check`: what is tested, and the action, of `if ... is None: return ...`, `... == None`,
-- or with `continue`.
unfoldable pub none_check : Stmt → Option (Expr × Action)
none_check
      (if_stmt
        (compare left (against is (constant null) end))
        (then_stmt (return value) done)
        done) =
    some (left, returns value)
none_check
      (if_stmt
        (compare left (against eq_op (constant null) end))
        (then_stmt (return value) done)
        done) =
    some (left, returns value)
none_check
      (if_stmt (compare left (against is (constant null) end)) (then_stmt continue done) done) =
    some (left, continues)
none_check
      (if_stmt (compare left (against eq_op (constant null) end)) (then_stmt continue done) done) =
    some (left, continues)
none_check _ = none

-- The action, if the statement tests the variable.
unfoldable pub name_check : String → Option (Expr × Action) → Option Action
name_check var_name (some (name id, action)) = if id == var_name then some action else none
name_check var_name _ = none

-- The object, the attribute and the action, if an attribute of a variable is tested that is an
-- Option of the book.
unfoldable pub attr_check : Option (Expr × Action) → Option (String × String × Action)
attr_check (some (attribute (name obj) attr, action)) =
    if has option_level_attrs attr || has option_decimal_attrs attr
    then some (obj, attr, action)
    else none
attr_check _ = none

-- `x = ...`, for one name.
unfoldable pub name_assign : Stmt → Option (String × Expr)
name_assign (assign (item (name id) none_left) value) = some (id, value)
name_assign _ = none

-- `z = x.attr`: the object and the attribute.
unfoldable pub attr_value : Expr → Option (String × String)
attr_value (attribute (name obj) attr) = some (obj, attr)
attr_value _ = none

-- `pending_attr_checks`
abbrev pub Pending : Type 0
Pending = String → String → Option Action

abbrev pub no_pending : Pending
no_pending obj attr = none

abbrev pub set_pending : String → String → Option Action → Pending → Pending
set_pending obj attr action pending obj' attr' =
    if obj == obj' && attr == attr' then action else pending obj' attr'

-- What is done with a statement: it is replaced together with the next one, it is kept for later,
-- it takes up a test that was kept, or it stays.
pub data Found : Type 0 where
  with_next : MatchUnwrap → Found
  kept : String → String → Action → Found
  taken : String → String → MatchUnwrap → Found
  stays : Found

abbrev pub taken_or_stays : String → Expr → String → String → Option Action → Found
taken_or_stays var_name value obj attr none = stays
taken_or_stays var_name value obj attr (some action) =
    taken obj attr (record { var_name = var_name; option_expr = value; action = action })

abbrev pub take_attr : Pending → String → Expr → Option (String × String) → Found
take_attr pending var_name value none = stays
take_attr pending var_name value (some (obj, attr)) =
    taken_or_stays var_name value obj attr (pending obj attr)

unfoldable pub find_taken : Pending → Option (String × Expr) → Found
find_taken pending none = stays
find_taken pending (some (var_name, value)) = take_attr pending var_name value (attr_value value)

abbrev pub kept_or : Option (String × String × Action) → Found → Found
kept_or (some (obj, attr, action)) found = kept obj attr action
kept_or none found = found

unfoldable pub find_kept : Pending → Stmt → Found
find_kept pending stmt =
    kept_or (attr_check (none_check stmt)) (find_taken pending (name_assign stmt))

abbrev pub with_next_or : String → Expr → Option Action → Found → Found
with_next_or var_name value (some action) found =
    with_next (record { var_name = var_name; option_expr = value; action = action })
with_next_or var_name value none found = found

unfoldable pub find_next : Pending → Stmt → Option Stmt → Option (String × Expr) → Found
find_next pending stmt (some next) (some (var_name, value)) =
    with_next_or var_name value (name_check var_name (none_check next)) (find_kept pending stmt)
find_next pending stmt _ _ = find_kept pending stmt

-- The patterns 1a, 1b, 2a, 2a' and 2b, in this order.
unfoldable pub find_pattern : Pending → Stmt → Option Stmt → Found
find_pattern pending stmt next = find_next pending stmt next (name_assign stmt)

module _ {ℓ} {A : Type ℓ} (show : A → Stmt) where
  unfoldable pub next_stmt : List A → Option Stmt
  next_stmt [] = none
  next_stmt (a ∷ rest) = some (show a)

  abbrev pub out : Found → A → List (Item A) → List (Item A)
  out (with_next m) a rest = unwrap m ∷ rest
  out (kept obj attr action) a rest = rest
  out (taken obj attr m) a rest = unwrap m ∷ rest
  out stays a rest = plain a ∷ rest

  abbrev pub pending_after : Found → Pending → Pending
  pending_after (kept obj attr action) pending = set_pending obj attr (some action) pending
  pending_after (taken obj attr m) pending = set_pending obj attr none pending
  pending_after _ pending = pending

  abbrev pub skips : Found → Bool
  skips (with_next m) = true
  skips _ = false

  -- The loop; `skip` says that the statement before took this one with it.
  unfoldable pub process : Bool → Pending → List A → List (Item A)
  process skip pending [] = []
  process true pending (a ∷ rest) = process false pending rest
  process false pending (a ∷ rest) =
      let found = find_pattern pending (show a) (next_stmt rest) in
      out found a (process (skips found) (pending_after found pending) rest)

  unfoldable pub preprocess : List A → List (Item A)
  preprocess stmts = process false no_pending stmts
