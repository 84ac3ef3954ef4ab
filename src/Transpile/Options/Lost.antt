-- ===== src/Transpile/Options/Lost.antt =====
-- A test of an attribute that no later statement of the list assigns.
use text.Mathlib.Text.{◌==◌}
use mathlib.Core.Option.{none-ne-some}
use pmt.Prelude.{
  String, ◌≡◌, refl, ap, ◌∙◌, Bool, true, false, Option, none, some, List, [], ◌∷◌, ◌&&◌, All,
  All-map, Option-cases, sym, inl, inr, if◌then◌else◌, ◌++◌,
}
use pmt.Transpile.Syntax.{Expr, name, none_left, item, Stmt, assign, if_stmt}
use pmt.Transpile.Options.{
  Action, none_check, attr_check, name_assign, attr_value, Pending, no_pending, set_pending, Found,
  with_next, stays, kept, taken, take_attr, taken_or_stays, find_taken, kept_or, find_kept,
  with_next_or, name_check, find_next, find_pattern, process, preprocess, next_stmt, out,
  pending_after, skips,
}

is_attr : String → String → Option (String × String) → Bool
is_attr obj attr none = false
is_attr obj attr (some (obj', attr')) = obj == obj' && attr == attr'

-- An assignment to a name that assigns the attribute.
unfoldable assigns_name : String → String → Option (String × Expr) → Bool
unfolding is_attr
assigns_name obj attr none = false
assigns_name obj attr (some (var_name, value)) = is_attr obj attr (attr_value value)

-- The statement assigns the attribute, to one target.
unfoldable pub assigns_attr : String → String → Stmt → Bool
unfolding is_attr
assigns_attr obj attr (assign (item target none_left) value) = is_attr obj attr (attr_value value)
assigns_attr obj attr _ = false

assigns_name-assign :
    (obj attr : String) (stmt : Stmt)
    → assigns_attr obj attr stmt ≡ false
    → assigns_name obj attr (name_assign stmt) ≡ false
unfolding assigns_attr assigns_name name_assign
assigns_name-assign obj attr (assign (item (name id) none_left) value) h = h
assigns_name-assign obj attr _ h = refl

module _ (obj attr : String) where
  -- The two agree on every other attribute.
  abbrev Agree : Pending → Pending → Type 0
  Agree p q =
      (obj' attr' : String) → (obj == obj' && attr == attr') ≡ false → p obj' attr' ≡ q obj' attr'

  module _ (p q : Pending) (agree : Agree p q) where
    take_attr-agree :
        (var_name : String) (value : Expr) (o : Option (String × String))
        → is_attr obj attr o ≡ false
        → take_attr p var_name value o ≡ take_attr q var_name value o
    unfolding is_attr
    take_attr-agree var_name value none h = refl
    take_attr-agree var_name value (some (obj', attr')) h =
        ap (taken_or_stays var_name value obj' attr') (agree obj' attr' h)

    find_taken-agree :
        (o : Option (String × Expr))
        → assigns_name obj attr o ≡ false
        → find_taken p o ≡ find_taken q o
    unfolding find_taken assigns_name
    find_taken-agree none h = refl
    find_taken-agree (some (var_name, value)) h =
        take_attr-agree var_name value (attr_value value) h

    find_kept-agree :
        (stmt : Stmt)
        → assigns_name obj attr (name_assign stmt) ≡ false
        → find_kept p stmt ≡ find_kept q stmt
    unfolding find_kept
    find_kept-agree stmt h =
        ap (kept_or (attr_check (none_check stmt))) (find_taken-agree (name_assign stmt) h)

    find_next-agree :
        (stmt : Stmt) (next : Option Stmt) (o : Option (String × Expr))
        → find_kept p stmt ≡ find_kept q stmt
        → find_next p stmt next o ≡ find_next q stmt next o
    unfolding find_next
    find_next-agree stmt none o h = h
    find_next-agree stmt (some next) none h = h
    find_next-agree stmt (some next) (some (var_name, value)) h =
        ap (with_next_or var_name value (name_check var_name (none_check next))) h

    set_pending-Agree :
        (o a : String) (action : Option Action)
        → Agree (set_pending o a action p) (set_pending o a action q)
    set_pending-Agree o a action obj' attr' h =
        ap (λ t. if o == obj' && a == attr' then action else t) (agree obj' attr' h)

  module _ {ℓ} {A : Type ℓ} (show : A → Stmt) where
    pending_after-Agree :
        (p q : Pending)
        → Agree p q
        → (found : Found) → Agree (pending_after show found p) (pending_after show found q)
    pending_after-Agree p q agree (kept o a action) = set_pending-Agree p q agree o a (some action)
    pending_after-Agree p q agree (taken o a m) = set_pending-Agree p q agree o a none
    pending_after-Agree p q agree (with_next m) = agree
    pending_after-Agree p q agree stays = agree

    process-Agree :
        (skip : Bool) (p q : Pending) (stmts : List A)
        → Agree p q
        → All (λ a. assigns_name obj attr (name_assign (show a)) ≡ false) stmts
        → process show skip p stmts ≡ process show skip q stmts
    unfolding process find_pattern
    process-Agree skip p q [] agree h = refl
    process-Agree true p q (a ∷ rest) agree h = process-Agree false p q rest agree h.1
    process-Agree false p q (a ∷ rest) agree h =
        let same =
          find_next-agree p q agree (show a) (next_stmt show rest) (name_assign (show a))
            (find_kept-agree p q agree (show a) h.0) in
        let found = find_next q (show a) (next_stmt show rest) (name_assign (show a)) in
        ap (λ t. out show t a (process show (skips show t) (pending_after show t p) rest)) same
        ∙ ap (out show found a) (
            process-Agree (skips show found) (pending_after show found p)
              (pending_after show found q) rest (pending_after-Agree p q agree found) h.1)

check_name_assign :
    (stmt : Stmt) (x : Expr × Action) → none_check stmt ≡ some x → name_assign stmt ≡ none
unfolding none_check name_assign
check_name_assign (if_stmt test body orelse) x e = refl
check_name_assign _ x e = cc

check_attr-assign :
    (stmt : Stmt) (x : String × String × Action)
    → attr_check (none_check stmt) ≡ some x
    → name_assign stmt ≡ none
unfolding attr_check
check_attr-assign stmt x e = elim (Option-cases (none_check stmt)) [
  | inl n ↦ absurd (none-ne-some x (ap attr_check (sym n) ∙ e))
  | inr (y, n) ↦ check_name_assign stmt y n
]

find_next-none :
    (p : Pending) (stmt : Stmt) (next : Option Stmt) → find_next p stmt next none ≡ find_kept p stmt
unfolding find_next
find_next-none p stmt none = refl
find_next-none p stmt (some next) = refl

find_pattern-kept :
    (p : Pending) (stmt : Stmt) (next : Option Stmt) (obj attr : String) (action : Action)
    → attr_check (none_check stmt) ≡ some (obj, attr, action)
    → find_pattern p stmt next ≡ kept obj attr action
unfolding find_pattern find_kept
find_pattern-kept p stmt next obj attr action e =
    ap (find_next p stmt next) (check_attr-assign stmt (obj, attr, action) e)
    ∙ find_next-none p stmt next
    ∙ ap (λ o. kept_or o (find_taken p (name_assign stmt))) e

-- A statement that assigns no name looks at no other one.
find_pattern-unassigned :
    (p : Pending) (stmt : Stmt) (next : Option Stmt)
    → name_assign stmt ≡ none
    → find_pattern p stmt next ≡ kept_or (attr_check (none_check stmt)) stays
unfolding find_pattern find_kept find_taken
find_pattern-unassigned p stmt next e =
    ap (find_next p stmt next) e
    ∙ find_next-none p stmt next
    ∙ ap (λ o. kept_or (attr_check (none_check stmt)) (find_taken p o)) e

is_absent : {A : Type 0} → Option A → Bool
is_absent none = true
is_absent (some a) = false

is_absent-none : {A : Type 0} (o : Option A) → is_absent o ≡ true → o ≡ none
unfolding is_absent
is_absent-none none h = refl
is_absent-none (some a) h = cc

module _ {ℓ} {A : Type ℓ} (show : A → Stmt) where
  -- The last statement, if there is one, assigns no name.
  unfoldable pub ends_unassigned : List A → Bool
  unfolding is_absent
  ends_unassigned [] = true
  ends_unassigned (a ∷ []) = is_absent (name_assign (show a))
  ends_unassigned (a ∷ b ∷ rest) = ends_unassigned (b ∷ rest)

  skips-kept_or : (o : Option (String × String × Action)) → skips show (kept_or o stays) ≡ false
  skips-kept_or none = refl
  skips-kept_or (some x) = refl

  module _ (a : A) (rest : List A) (obj attr : String) (action : Action)
      (tests : attr_check (none_check (show a)) ≡ some (obj, attr, action))
      (unused : All (λ b. assigns_attr obj attr (show b) ≡ false) rest) where
    process-lost_first : (p : Pending) → process show false p (a ∷ rest) ≡ process show false p rest
    unfolding process
    process-lost_first p =
        let found = find_pattern-kept p (show a) (next_stmt show rest) obj attr action tests in
        ap (λ t. out show t a (process show (skips show t) (pending_after show t p) rest)) found
        ∙ process-Agree obj attr show false (set_pending obj attr (some action) p) p rest
            (λ obj' attr' other. rw other refl)
            (All-map rest (λ b. assigns_name-assign obj attr (show b)) unused)

    process-lost :
        (skip : Bool) (p : Pending) (x : A) (before : List A)
        → ends_unassigned (x ∷ before) ≡ true
        → process show skip p (x ∷ (before ++ (a ∷ rest)))
          ≡ process show skip p (x ∷ (before ++ rest))
    unfolding process ends_unassigned next_stmt
    process-lost true p x [] h = process-lost_first p
    process-lost false p x [] h =
        let found = kept_or (attr_check (none_check (show x))) stays in
        let unassigned = is_absent-none (name_assign (show x)) h in
        let q = pending_after show found p in
        rw
          (
            find_pattern-unassigned p (show x) (some (show a)) unassigned,
            find_pattern-unassigned p (show x) (next_stmt show rest) unassigned,
            skips-kept_or (attr_check (none_check (show x))),
          )
          (ap (out show found x) (process-lost_first q))
    process-lost true p x (y ∷ before) h = process-lost false p y before h
    process-lost false p x (y ∷ before) h =
        let found = find_pattern p (show x) (some (show y)) in
        ap (out show found x)
          (process-lost (skips show found) (pending_after show found p) y before h)

    -- A test of an Option attribute that returns or continues leaves no trace in the processed list
    -- if the statement before it, if there is one, is no assignment to one name, and none of the
    -- statements after it assigns the attribute to its one target: the list is what it is without
    -- the test.
    pub preprocess-lost :
        (before : List A)
        → ends_unassigned before ≡ true
        → preprocess show (before ++ (a ∷ rest)) ≡ preprocess show (before ++ rest)
    unfolding preprocess
    preprocess-lost [] h = process-lost_first no_pending
    preprocess-lost (x ∷ before) h = process-lost false no_pending x before h
