-- ===== src/Transpile/Options/RoundTrip.antt =====
-- The unwrappings, written out as the statements that they stand for.
use text.Mathlib.TextEquality.{eq_iff}
use pmt.Prelude.{
  String, ◌≡◌, refl, ap, false, Option, none, some, List, [], ◌∷◌, ◌++◌, map, arith, All,
  Option-cases, inl, inr,
}
use pmt.Transpile.Syntax.{
  null, is, Expr, name, constant, compare, none_left, item, end, against, Stmt, return, assign,
  if_stmt, continue, done, then_stmt,
}
use pmt.Transpile.Options.{
  Action, returns, continues, MatchUnwrap, Item, plain, unwrap, none_check, name_check, attr_check,
  name_assign, attr_value, no_pending, Found, with_next, stays, kept, taken, find_taken, find_kept,
  find_next, find_pattern, process, preprocess, next_stmt, out, pending_after, skips,
}

abbrev action_stmt : Action → Stmt
action_stmt (returns value) = return value
action_stmt continues = continue

-- `if left is None:` and the action.
abbrev check : Expr → Action → Stmt
check left action =
    if_stmt (compare left (against is (constant null) end)) (then_stmt (action_stmt action) done)
      done

abbrev with_check : Stmt → Option (Expr × Action) → Stmt
with_check stmt none = stmt
with_check stmt (some (left, action)) = check left action

-- The test for None is written with `is`.
unfoldable pub canonical : Stmt → Stmt
canonical stmt = with_check stmt (none_check stmt)

-- The two statements that an unwrapping stands for.
unfoldable pub restored : MatchUnwrap → List Stmt
restored m =
    assign (item (name m.var_name) none_left) m.option_expr ∷ check (name m.var_name) m.action ∷ []

module _ {ℓ} {A : Type ℓ} (show : A → Stmt) where
  unfoldable pub expand : List (Item A) → List Stmt
  expand [] = []
  expand (plain a ∷ items) = canonical (show a) ∷ expand items
  expand (unwrap m ∷ items) = restored m ++ expand items

name_assign-eq :
    (stmt : Stmt) (var_name : String) (value : Expr)
    → name_assign stmt ≡ some (var_name, value)
    → stmt ≡ assign (item (name var_name) none_left) value
unfolding name_assign
name_assign-eq (assign (item (name id) none_left) e) var_name value h = ground arith
name_assign-eq _ var_name value h = cc

canonical-assign :
    (stmt : Stmt) (var_name : String) (value : Expr)
    → name_assign stmt ≡ some (var_name, value)
    → canonical stmt ≡ assign (item (name var_name) none_left) value
unfolding canonical none_check
canonical-assign stmt var_name value h = rw (name_assign-eq stmt var_name value h) refl

name_check-eq :
    (var_name : String) (o : Option (Expr × Action)) (action : Action)
    → name_check var_name o ≡ some action
    → o ≡ some (name var_name, action)
unfolding name_check
name_check-eq var_name (some (name id, a)) action h = ground (arith, eq_iff id var_name)
name_check-eq var_name _ action h = cc

canonical-check :
    (next : Stmt) (var_name : String) (action : Action)
    → name_check var_name (none_check next) ≡ some action
    → canonical next ≡ check (name var_name) action
unfolding canonical
canonical-check next var_name action h =
    ap (with_check next) (name_check-eq var_name (none_check next) action h)

-- What is found without a test that is kept is an unwrapping of this statement and the next one.
data Explains (stmt : Stmt) : Option Stmt → Found → Type 0 where
  unchanged : {next : Option Stmt} → Explains stmt next stays
  combined :
      {next : Stmt} {m : MatchUnwrap}
      → restored m ≡ canonical stmt ∷ canonical next ∷ []
      → Explains stmt (some next) (with_next m)

find_taken-stays : (o : Option (String × Expr)) → find_taken no_pending o ≡ stays
unfolding find_taken
find_taken-stays none = refl
find_taken-stays (some (var_name, value)) = elim (Option-cases (attr_value value)) [
  | inl e ↦ rw e refl
  | inr ((obj, attr), e) ↦ rw e refl
]

module _ (stmt : Stmt) (h : attr_check (none_check stmt) ≡ none) where
  find_kept-stays : find_kept no_pending stmt ≡ stays
  unfolding find_kept
  find_kept-stays = rw h (find_taken-stays (name_assign stmt))

  unchanged_here : (next : Option Stmt) (found : Found) → found ≡ stays → Explains stmt next found
  unchanged_here next found e = rw e unchanged

  find_next-Explains :
      (next : Stmt) (var_name : String) (value : Expr)
      → name_assign stmt ≡ some (var_name, value)
      → Explains stmt (some next) (find_next no_pending stmt (some next) (some (var_name, value)))
  unfolding find_next restored
  find_next-Explains next var_name value e =
      elim (Option-cases (name_check var_name (none_check next))) [
        | inl n ↦ rw n (unchanged_here (some next) (find_kept no_pending stmt) find_kept-stays)
        | inr (action, n) ↦ rw n (
            combined (
              rw (canonical-assign stmt var_name value e, canonical-check next var_name action n)
                refl))
      ]

  find_pattern-Explains :
      (next : Option Stmt) → Explains stmt next (find_pattern no_pending stmt next)
  unfolding find_pattern find_next
  find_pattern-Explains none = unchanged_here none (find_kept no_pending stmt) find_kept-stays
  find_pattern-Explains (some next) = elim (Option-cases (name_assign stmt)) [
    | inl e ↦ rw e (unchanged_here (some next) (find_kept no_pending stmt) find_kept-stays)
    | inr ((var_name, value), e) ↦ rw e (find_next-Explains next var_name value e)
  ]

module _ {ℓ} {A : Type ℓ} (show : A → Stmt) where
  abbrev canon : A → Stmt
  canon a = canonical (show a)

  -- One round of the loop, with what the loop makes of the rest, whether or not it is skipped.
  round-canon :
      (a b : A) (rest : List A) (found : Found)
      → Explains (show a) (some (show b)) found
      → expand show (process show false no_pending (b ∷ rest)) ≡ map canon (b ∷ rest)
      → expand show (process show false no_pending rest) ≡ map canon rest
      → expand show (
          out show found a
            (process show (skips show found) (pending_after show found no_pending) (b ∷ rest)))
        ≡ map canon (a ∷ b ∷ rest)
  unfolding expand process
  round-canon a b rest stays unchanged h k = ap (λ t. canon a ∷ t) h
  round-canon a b rest (with_next m) (combined e) h k = rw (e, k) refl
  round-canon a b rest (kept _ _ _) e h k = elim e [ ]
  round-canon a b rest (taken _ _ _) e h k = elim e [ ]

  last-canon :
      (a : A) (found : Found)
      → Explains (show a) none found
      → expand show (out show found a (process show (skips show found) no_pending []))
        ≡ canon a ∷ []
  unfolding expand process
  last-canon a stays unchanged = refl
  last-canon a (with_next m) e = elim e [ ]
  last-canon a (kept _ _ _) e = elim e [ ]
  last-canon a (taken _ _ _) e = elim e [ ]

  process-canon :
      (stmts : List A)
      → All (λ a. attr_check (none_check (show a)) ≡ none) stmts
      → expand show (process show false no_pending stmts) ≡ map canon stmts
  unfolding process expand next_stmt
  process-canon [] h = refl
  process-canon (a ∷ []) h =
      last-canon a (find_pattern no_pending (show a) none) (find_pattern-Explains (show a) h.0 none)
  process-canon (a ∷ b ∷ rest) h =
      round-canon a b rest (find_pattern no_pending (show a) (some (show b)))
        (find_pattern-Explains (show a) h.0 (some (show b))) (process-canon (b ∷ rest) h.1)
        (process-canon rest h.1.1)

  -- Where no statement of the list is a test of an Option attribute that returns or continues, the
  -- processed list, with each unwrapping written out as its assignment and its test for None, is
  -- the list itself, in which such tests are written with `is` in place of `==`.
  pub expand-preprocess :
      (stmts : List A)
      → All (λ a. attr_check (none_check (show a)) ≡ none) stmts
      → expand show (preprocess show stmts) ≡ map (λ a. canonical (show a)) stmts
  unfolding preprocess
  expand-preprocess stmts h = process-canon stmts h
