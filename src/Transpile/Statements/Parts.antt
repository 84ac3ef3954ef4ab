-- ===== src/Transpile/Statements/Parts.antt =====
-- That the parts of statements are generated without an exception.
use pmt.Prelude.{
  ℕ, String, ◌≡◌, Bool, true, false, Option, none, some, List, [], ◌∷◌, ◌&&◌, arith, All,
  if◌then◌else◌,
}
use pmt.Transpile.Texts.{has}
use pmt.Transpile.Syntax.{int, Expr, name, constant, bin_op, Exprs, item, Stmt}
use pmt.Transpile.Expressions.{gen_expr}
use pmt.Transpile.Expressions.Gives.{Gives, gives, Gives-bind}
use pmt.Transpile.Expressions.Total.{decimals, gen_expr-Gives}
use pmt.Transpile.Options.{Action, returns, continues, MatchUnwrap, Item, plain, unwrap}
use pmt.Transpile.Bindings.{
  Config, Env, Gen, Block, gen_int_expr, gen_assign, gen_ann_assign, gen_return, none_arm,
  gen_match_unwrap,
}
use pmt.Transpile.Statements.{
  Orelse, no_else, elif, otherwise, else_lines, elif_lines, gen_if, gen_for, gen_items, sequence,
}
use pmt.Transpile.Statements.Sound.{decimals_in_option, is_sound, action_sound, IsSoundUnwrap}

-- A generator or a block returns, whatever the variables are.
abbrev pub Runs : {A : Type 0} → (Env → Option A) → Type 0
Runs gen = (env : Env) → Gives (gen env)

module _ (a b : Bool) (h : (a && b) ≡ true) where
  pub first_holds : a ≡ true
  first_holds = ground arith

  pub second_holds : b ≡ true
  second_holds = ground arith

pub gen_int_expr-Gives :
    (strings : List String) (e : Expr) → decimals e ≡ true → Gives (gen_int_expr strings e)
unfolding gen_int_expr decimals
gen_int_expr-Gives strings (constant (int text)) h = gives
gen_int_expr-Gives strings (bin_op left op right) h =
    Gives-bind _ (gen_int_expr-Gives strings left (first_holds (decimals left) (decimals right) h))
      (λ l.
        Gives-bind _
          (gen_int_expr-Gives strings right (second_holds (decimals left) (decimals right) h))
          (λ r. gives))
gen_int_expr-Gives strings (name id) h = gives
gen_int_expr-Gives strings e h = gen_expr-Gives strings e h

pub value-Gives :
    (b : Bool) (strings : List String) (e : Expr)
    → decimals e ≡ true
    → Gives (if b then gen_int_expr strings e else gen_expr strings e)
value-Gives true strings e h = gen_int_expr-Gives strings e h
value-Gives false strings e h = gen_expr-Gives strings e h

pub gen_assign-Runs :
    (config : Config) (level : ℕ) (target : Expr) (targets : Exprs) (value : Expr)
    → decimals target ≡ true
    → decimals value ≡ true
    → Runs (gen_assign config level (item target targets) value)
unfolding gen_assign
gen_assign-Runs config level (name id) targets value h k env =
    Gives-bind _ (gen_expr-Gives env.strings (name id) h)
      (λ t. Gives-bind _ (value-Gives (has config.ints id) env.strings value k) (λ v. gives))
gen_assign-Runs config level target targets value h k env =
    Gives-bind _ (gen_expr-Gives env.strings target h)
      (λ t. Gives-bind _ (gen_expr-Gives env.strings value k) (λ v. gives))

pub gen_ann_assign-Runs :
    (config : Config) (level : ℕ) (target value : Expr)
    → decimals target ≡ true
    → decimals value ≡ true
    → Runs (gen_ann_assign config level target value)
unfolding gen_ann_assign
gen_ann_assign-Runs config level (name id) value h k env =
    Gives-bind _ (gen_expr-Gives env.strings (name id) h)
      (λ t. Gives-bind _ (gen_expr-Gives env.strings value k) (λ v. gives))
gen_ann_assign-Runs config level target value h k env =
    Gives-bind _ (gen_expr-Gives env.strings target h)
      (λ t. Gives-bind _ (gen_expr-Gives env.strings value k) (λ v. gives))

pub gen_return-Runs :
    (level : ℕ) (value : Option Expr)
    → decimals_in_option value ≡ true
    → Runs (gen_return level value)
unfolding gen_return
gen_return-Runs level none h env = gives
gen_return-Runs level (some value) h env =
    Gives-bind _ (gen_expr-Gives env.strings value h) (λ t. gives)

pub none_arm-Gives :
    (strings : List String) (action : Action)
    → action_sound action ≡ true
    → Gives (none_arm strings action)
unfolding none_arm
none_arm-Gives strings continues h = gives
none_arm-Gives strings (returns none) h = gives
none_arm-Gives strings (returns (some value)) h =
    Gives-bind _ (gen_expr-Gives strings value h) (λ t. gives)

pub gen_match_unwrap-Runs :
    (level : ℕ) (m : MatchUnwrap) → IsSoundUnwrap m → Runs (gen_match_unwrap level m)
unfolding gen_match_unwrap
gen_match_unwrap-Runs level m h env =
    Gives-bind _ (gen_expr-Gives env.strings m.option_expr h.0)
      (λ t. Gives-bind _ (none_arm-Gives env.strings m.action h.1) (λ a. gives))

pub sequence-Runs : (gen : Gen) (block : Block) → Runs gen → Runs block → Runs (sequence gen block)
unfolding sequence
sequence-Runs gen block g b env = Gives-bind _ (g env) (λ t. Gives-bind _ (b t.1) (λ ls. gives))

abbrev pub OrelseRuns : Orelse → Type 0
OrelseRuns no_else = Unit
OrelseRuns (elif gen block) = Runs gen × Runs block
OrelseRuns (otherwise block) = Runs block

pub else_lines-Runs : (level : ℕ) (o : Orelse) → OrelseRuns o → Runs (else_lines level o)
unfolding else_lines
else_lines-Runs level no_else r env = gives
else_lines-Runs level (elif gen block) r env = Gives-bind _ (r.1 env) (λ ls. gives)
else_lines-Runs level (otherwise block) r env = Gives-bind _ (r env) (λ ls. gives)

pub elif_lines-Runs : (level : ℕ) (o : Orelse) → OrelseRuns o → Runs (elif_lines level o)
unfolding elif_lines
elif_lines-Runs level (elif gen block) r env = Gives-bind _ (r.0 env) (λ t. gives)
elif_lines-Runs level no_else r env = else_lines-Runs level no_else r env
elif_lines-Runs level (otherwise block) r env = else_lines-Runs level (otherwise block) r env

pub gen_if-Runs :
    (level : ℕ) (test : Expr) (o : Option String) (body : Block) (orelse : Orelse)
    → decimals test ≡ true
    → Runs body
    → OrelseRuns orelse
    → Runs (gen_if level test o body orelse)
unfolding gen_if
gen_if-Runs level test (some id) body orelse h b r env =
    Gives-bind _ (b env) (λ ls. Gives-bind _ (else_lines-Runs level orelse r ls.1) (λ rs. gives))
gen_if-Runs level test none body orelse h b r env =
    Gives-bind _ (gen_expr-Gives env.strings test h) (λ c.
      Gives-bind _ (b env) (λ ls. Gives-bind _ (elif_lines-Runs level orelse r ls.1) (λ rs. gives)))

pub gen_for-Runs :
    (level : ℕ) (target iter : Expr) (o : Option (String × String)) (body processed : Block)
    → decimals target ≡ true
    → decimals iter ≡ true
    → Runs body
    → Runs processed
    → Runs (gen_for level target iter o body processed)
unfolding gen_for
gen_for-Runs level target iter (some (a, b)) body processed h k r p env =
    Gives-bind _ (p env) (λ ls. gives)
gen_for-Runs level target iter none body processed h k r p env =
    Gives-bind _ (gen_expr-Gives env.strings target h) (λ t.
      Gives-bind _ (gen_expr-Gives env.strings iter k) (λ i. Gives-bind _ (r env) (λ ls. gives)))

-- A statement with its generator, and a processed one.
abbrev pub Ready : Stmt × Gen → Type 0
Ready a = (is_sound a.0 ≡ true) × Runs a.1

abbrev pub ItemRuns : Item (Stmt × Gen) → Type 0
ItemRuns (plain a) = Runs a.1
ItemRuns (unwrap m) = IsSoundUnwrap m

pub gen_items-Runs :
    (level : ℕ) (items : List (Item (Stmt × Gen)))
    → All ItemRuns items
    → Runs (gen_items level items)
unfolding gen_items
gen_items-Runs level [] h env = gives
gen_items-Runs level (plain (stmt, gen) ∷ items) h env =
    Gives-bind _ (h.0 env) (λ t. Gives-bind _ (gen_items-Runs level items h.1 t.1) (λ ls. gives))
gen_items-Runs level (unwrap m ∷ items) h env =
    Gives-bind _ (gen_match_unwrap-Runs level m h.0 env)
      (λ t. Gives-bind _ (gen_items-Runs level items h.1 t.1) (λ ls. gives))
