-- ===== src/Transpile/Module/Total.antt =====
-- The strategies for which a module is generated.
use pmt.Prelude.{
  String, ◌≡◌, Bool, true, false, Option, some, List, [], ◌∷◌, All, if◌then◌else◌, ◌>>=◌,
}
use pmt.Transpile.Syntax.{Stmt, Stmts}
use pmt.Transpile.Expressions.Gives.{Gives, gives, given, Gives-bind}
use pmt.Transpile.Options.{Item, plain, unwrap, preprocess}
use pmt.Transpile.Bindings.{Gen}
use pmt.Transpile.Statements.{stmt_of, generators}
use pmt.Transpile.Statements.Sound.{are_sound}
use pmt.Transpile.Statements.Parts.{ItemRuns, gen_items-Runs}
use pmt.Transpile.Statements.Total.{preprocess-Runs, generators-Ready}
use pmt.Transpile.Params.{int_params}
use pmt.Transpile.Strategy.{StrategyMeta}
use pmt.Transpile.Module.{
  is_docstring, skip_docstrings, scan, gen_function_body, function_body, module_text, generate,
}

kept_plain :
    (b : Bool) (a : Stmt × Gen) (rest : List (Item (Stmt × Gen)))
    → ItemRuns (plain a)
    → All ItemRuns rest
    → All ItemRuns (if b then rest else plain a ∷ rest)
kept_plain true a rest r h = h
kept_plain false a rest r h = (r, h)

skip_docstrings-Runs :
    (items : List (Item (Stmt × Gen))) → All ItemRuns items → All ItemRuns (skip_docstrings items)
unfolding skip_docstrings
skip_docstrings-Runs [] h = tt
skip_docstrings-Runs (plain a ∷ items) h =
    kept_plain (is_docstring (stmt_of a)) a (skip_docstrings items) h.0
      (skip_docstrings-Runs items h.1)
skip_docstrings-Runs (unwrap m ∷ items) h = (h.0, skip_docstrings-Runs items h.1)

gen_function_body-Gives :
    (params : List String) (body : Stmts)
    → are_sound body ≡ true
    → Gives (gen_function_body params body)
unfolding gen_function_body
gen_function_body-Gives params body h =
    let stmts = generators (scan params body) 2 body in
    Gives-bind _
      (gen_items-Runs 2 (skip_docstrings (preprocess stmt_of stmts))
        (skip_docstrings-Runs (preprocess stmt_of stmts)
          (preprocess-Runs stmts (generators-Ready (scan params body) 2 body h)))
        (record { declared = []; strings = [] }))
      (λ ls. gives)

body-Gives :
    (meta : StrategyMeta) (o : Option Stmts) (body : Stmts)
    → o ≡ some body
    → are_sound body ≡ true
    → Gives
        (o >>= λ b. gen_function_body (int_params meta.params) b >>= λ t. some (module_text meta t))
body-Gives meta o body e h =
    rw e (Gives-bind _ (gen_function_body-Gives (int_params meta.params) body h) (λ t. gives))

-- The generator returns a module for a strategy if the first statement of its source has a body and
-- the body is sound: each of its assignments has a target, which is a name if an attribute of a
-- variable is assigned, and each call of `Decimal` that the generator reads has an argument. No
-- other statement or expression makes it raise an exception.
pub generate-IsSome :
    (meta : StrategyMeta) (body : Stmts)
    → function_body meta.on_tick ≡ some body
    → are_sound body ≡ true
    → (rust_code : String) × (generate meta ≡ some rust_code)
unfolding generate
generate-IsSome meta body e h = given (body-Gives meta (function_body meta.on_tick) body e h)
