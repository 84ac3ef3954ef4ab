-- ===== src/Transpile/Statements.antt =====
-- The methods of `RustCodeGen` in pmstrat/pmstrat/transpile.py that generate statements and blocks
-- of them.
pub mod Sound
pub mod Parts
pub mod Total
use Prim.Native.String.{◌++◌}
use text.Mathlib.Text.{◌==◌}
use pmt.Prelude.{
  ℕ, suc, String, Bool, true, false, Option, none, some, List, [], ◌∷◌, ◌&&◌, if◌then◌else◌, ◌>>=◌,
}
use pmt.Transpile.Texts.{indent, followed_by, unlines}
use pmt.Transpile.Chars.{lstrip}
use pmt.Transpile.Syntax.{
  null, is_not, Expr, name, constant, call, attribute, compare, tuple, none_left, item, end,
  against, Stmt, return, assign, ann_assign, aug_assign, if_stmt, for_stmt, expr_stmt, continue,
  break, function_def, async_function_def, class_def, import, import_from, global, nonlocal, assert,
  refused, other_stmt, Refused, with_stmt, try, raise_stmt, match, Stmts, done, then_stmt,
}
use pmt.Transpile.Expressions.{gen_expr}
use pmt.Transpile.Options.{Item, plain, unwrap, preprocess}
use pmt.Transpile.Operators.{gen_binop}
use pmt.Transpile.Bindings.{
  Config, Gen, Block, gen_assign, gen_ann_assign, gen_return, gen_match_unwrap,
}

-- `x` in `if x is not None:`.
unfoldable pub some_test : Expr → Option String
some_test (compare (name id) (against is_not (constant null) end)) = some id
some_test _ = none

-- What stands after `else`: nothing, an `elif`, or other statements.
pub data Orelse : Type 0 where
  no_else : Orelse
  elif : Gen → Block → Orelse
  otherwise : Block → Orelse

-- The lines after the body's: `else` with its statements.
unfoldable pub else_lines : ℕ → Orelse → Block
else_lines level no_else env = some ((indent level ++ "}") ∷ [], env)
else_lines level (elif text block) env = do
  (lines, env') ← block env
  some ((indent level ++ "} else {") ∷ followed_by lines ((indent level ++ "}") ∷ []), env')
else_lines level (otherwise block) env = do
  (lines, env') ← block env
  some ((indent level ++ "} else {") ∷ followed_by lines ((indent level ++ "}") ∷ []), env')

-- An `elif` goes on in the line that ends the body.
unfoldable pub elif_lines : ℕ → Orelse → Block
elif_lines level (elif gen block) env = do
  (text, env') ← gen env
  some ((indent level ++ "} else " ++ lstrip text) ∷ [], env')
elif_lines level orelse env = else_lines level orelse env

-- `_gen_if`, with `_try_if_let_some` for a test `x is not None`.
unfoldable pub gen_if : ℕ → Expr → Option String → Block → Orelse → Gen
gen_if level test (some id) body orelse env = do
  (lines, env') ← body env
  (rest, env'') ← else_lines level orelse env'
  some (
    unlines
        ((indent level ++ "if let Some(" ++ id ++ ") = " ++ id ++ " {") ∷ followed_by lines rest),
    env'',
  )
gen_if level test none body orelse env = do
  cond ← gen_expr env.strings test
  (lines, env') ← body env
  (rest, env'') ← elif_lines level orelse env'
  some (unlines ((indent level ++ "if " ++ cond ++ " {") ∷ followed_by lines rest), env'')

-- The two variables of `for a, b in ctx.markets.items()`; those that are no names have defaults.
abbrev pub name_or : String → Expr → String
name_or default (name id) = id
name_or default _ = default

unfoldable pub markets_iteration : Expr → Expr → Option (String × String)
markets_iteration (tuple (item a (item b none_left)))
      (call line (attribute (attribute (name ctx) markets) items) args kws) =
    if ctx == "ctx" && (markets == "markets" && items == "items")
    then some (name_or "token_id" a, name_or "market" b)
    else none
markets_iteration _ _ = none

-- `_gen_for`, with `_gen_markets_for` for the markets of the context.
unfoldable pub gen_for : ℕ → Expr → Expr → Option (String × String) → Block → Block → Gen
gen_for level target iter (some (token_var, market_var)) body processed env = do
  (lines, env') ← processed env
  some (
    unlines (
        (indent level ++ "for (" ++ token_var ++ ", " ++ market_var ++ ") in ctx.markets.iter() {")
        ∷ followed_by lines ((indent level ++ "}") ∷ [])),
    env',
  )
gen_for level target iter none body processed env = do
  t ← gen_expr env.strings target
  i ← gen_expr env.strings iter
  (lines, env') ← body env
  some (
    unlines (
        (indent level ++ "for " ++ t ++ " in " ++ i ++ " {")
        ∷ followed_by lines ((indent level ++ "}") ∷ [])),
    env',
  )

-- `type(stmt).__name__`, of the statements that are not supported.
abbrev pub refused_name : Refused → String
refused_name with_stmt = "With"
refused_name try = "Try"
refused_name raise_stmt = "Raise"
refused_name match = "Match"

abbrev pub unsupported : ℕ → String → Gen
unsupported level class_name env =
    some (indent level ++ "// TODO: unsupported stmt " ++ class_name, env)

-- The statements of a list that is preprocessed, each with its generator.
unfoldable pub gen_items : ℕ → List (Item (Stmt × Gen)) → Block
gen_items level [] env = some ([], env)
gen_items level (plain (stmt, gen) ∷ items) env = do
  (line, env') ← gen env
  (lines, env'') ← gen_items level items env'
  some (line ∷ lines, env'')
gen_items level (unwrap m ∷ items) env = do
  (line, env') ← gen_match_unwrap level m env
  (lines, env'') ← gen_items level items env'
  some (line ∷ lines, env'')

abbrev pub stmt_of : Stmt × Gen → Stmt
stmt_of a = a.0

unfoldable pub no_lines : Block
no_lines env = some ([], env)

-- A statement's text and the lines after it.
unfoldable pub sequence : Gen → Block → Block
sequence gen block env = do
  (line, env') ← gen env
  (lines, env'') ← block env'
  some (line ∷ lines, env'')

unfoldable pub is_if : Stmt → Bool
is_if (if_stmt test body orelse) = true
is_if _ = false

-- One statement after `else`: an `elif` if it is a conditional.
abbrev pub orelse_of : Bool → Gen → Block → Orelse
orelse_of conditional gen block = if conditional then elif gen block else otherwise block

unfoldable mutual
  -- `_gen_stmt`
  pub gen_stmt : Config → ℕ → Stmt → Gen
  gen_stmt config level (return value) = gen_return level value
  gen_stmt config level (assign targets value) = gen_assign config level targets value
  gen_stmt config level (if_stmt test body orelse) =
      gen_if level test (some_test test) (gen_block config (suc level) body)
        (gen_orelse config level orelse)
  gen_stmt config level (for_stmt target iter body orelse) =
      gen_for level target iter (markets_iteration target iter) (gen_block config (suc level) body)
        (gen_items (suc level) (preprocess stmt_of (generators config (suc level) body)))
  gen_stmt config level (expr_stmt e) =
      λ env. gen_expr env.strings e >>= λ text. some (indent level ++ text ++ ";", env)
  gen_stmt config level (aug_assign target op value) = λ env. gen_expr env.strings target >>= λ t.
      gen_expr env.strings value >>= λ v.
      some (indent level ++ t ++ " " ++ gen_binop op ++ "= " ++ v ++ ";", env)
  gen_stmt config level continue = λ env. some (indent level ++ "continue;", env)
  gen_stmt config level break = λ env. some (indent level ++ "break;", env)
  gen_stmt config level (ann_assign target annotation none) =
      λ env. some (indent level ++ "// (declaration only)", env)
  gen_stmt config level (ann_assign target annotation (some value)) =
      gen_ann_assign config level target value
  gen_stmt config level (function_def _ _ _ _ _) = unsupported level "FunctionDef"
  gen_stmt config level (async_function_def _ _ _) = unsupported level "AsyncFunctionDef"
  gen_stmt config level (class_def _ _ _) = unsupported level "ClassDef"
  gen_stmt config level (import _ _) = unsupported level "Import"
  gen_stmt config level (import_from _ _) = unsupported level "ImportFrom"
  gen_stmt config level (global _ _) = unsupported level "Global"
  gen_stmt config level (nonlocal _ _) = unsupported level "Nonlocal"
  gen_stmt config level (assert _ _) = unsupported level "Assert"
  gen_stmt config level (refused kind _ _ _) = unsupported level (refused_name kind)
  gen_stmt config level (other_stmt class_name _ _ _) = unsupported level class_name

  pub gen_block : Config → ℕ → Stmts → Block
  gen_block config level done = no_lines
  gen_block config level (then_stmt stmt stmts) =
      sequence (gen_stmt config level stmt) (gen_block config level stmts)

  pub gen_orelse : Config → ℕ → Stmts → Orelse
  gen_orelse config level done = no_else
  gen_orelse config level (then_stmt stmt done) =
      orelse_of (is_if stmt) (gen_stmt config level stmt)
        (sequence (gen_stmt config (suc level) stmt) no_lines)
  gen_orelse config level (then_stmt stmt (then_stmt next stmts)) = otherwise (
      sequence (gen_stmt config (suc level) stmt)
        (sequence (gen_stmt config (suc level) next) (gen_block config (suc level) stmts)))

  pub generators : Config → ℕ → Stmts → List (Stmt × Gen)
  generators config level done = []
  generators config level (then_stmt stmt stmts) =
      (stmt, gen_stmt config level stmt) ∷ generators config level stmts
