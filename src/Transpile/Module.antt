-- ===== src/Transpile/Module.antt =====
-- The Rust module of a strategy: `RustCodeGen.generate` of pmstrat/pmstrat/transpile.py.
pub mod Total
use Prim.Native.String.{◌++◌}
use pmt.Prelude.{
  String, Bool, true, false, Option, none, some, List, [], ◌∷◌, map, if◌then◌else◌, ◌>>=◌,
}
use pmt.Transpile.Texts.{join, has, unlines}
use pmt.Transpile.Chars.{pascal}
use pmt.Transpile.Syntax.{
  str, constant, with_stmt, try, Stmt, if_stmt, for_stmt, expr_stmt, function_def,
  async_function_def, class_def, refused, other_stmt, Stmts, done, then_stmt,
}
use pmt.Transpile.Options.{Item, plain, unwrap, preprocess}
use pmt.Transpile.Scan.{scan_mutability, scan_int_vars}
use pmt.Transpile.Bindings.{Config, Gen}
use pmt.Transpile.Statements.{gen_items, generators, stmt_of}
use pmt.Transpile.Params.{generate_constants, int_params}
use pmt.Transpile.Validator.{Parsed, module_body, syntax_error}
use pmt.Transpile.Strategy.{StrategyMeta}

unfoldable pub is_docstring : Stmt → Bool
is_docstring (expr_stmt (constant (str text))) = true
is_docstring _ = false

unfoldable pub skip_docstrings : List (Item (Stmt × Gen)) → List (Item (Stmt × Gen))
skip_docstrings [] = []
skip_docstrings (plain a ∷ items) =
    let rest = skip_docstrings items in if is_docstring (stmt_of a) then rest else plain a ∷ rest
skip_docstrings (unwrap m ∷ items) = unwrap m ∷ skip_docstrings items

-- What the scans of a function's body find.
unfoldable pub scan : List String → Stmts → Config
scan params stmts = record {
  mutable = (scan_mutability stmts (record { assigned = []; mutable = [] })).mutable;
  ints = scan_int_vars params stmts [];
}

-- `_gen_function_body`, of a new `RustCodeGen`. `none` is an exception.
unfoldable pub gen_function_body : List String → Stmts → Option String
gen_function_body params stmts = do
  (lines, env) ←
      gen_items 2 (skip_docstrings (preprocess stmt_of (generators (scan params stmts) 2 stmts)))
        (record { declared = []; strings = [] })
  some (unlines lines)

-- The body of a statement, which some have.
unfoldable pub body_of : Stmt → Option Stmts
body_of (function_def line id args body decorators) = some body
body_of (async_function_def line id body) = some body
body_of (class_def line id body) = some body
body_of (if_stmt test body orelse) = some body
body_of (for_stmt target iter body orelse) = some body
body_of (refused with_stmt line parts body) = some body
body_of (refused try line parts body) = some body
body_of (other_stmt class_name parts body orelse) =
    if has ("While" ∷ "AsyncFor" ∷ "AsyncWith" ∷ "TryStar" ∷ []) class_name then some body else none
body_of _ = none

-- `ast.parse(source).body[0].body`
unfoldable pub function_body : Parsed → Option Stmts
function_body (syntax_error message line) = none
function_body (module_body done) = none
function_body (module_body (then_stmt stmt stmts)) = body_of stmt

token_literal : String → String
token_literal token = "\"" ++ token ++ "\".to_string()"

-- The text of the module, from that of the body.
unfoldable pub module_text : StrategyMeta → String → String
unfolding token_literal
module_text meta on_tick_body =
    let struct_name = pascal true meta.name in
    unlines (
      ("//! Auto-generated from Python strategy: " ++ meta.name)
      ∷ "//! DO NOT EDIT - regenerate with `pmstrat transpile`"
      ∷ ""
      ∷ "use crate::strategy::{Signal, Strategy, StrategyContext, Urgency};"
      ∷ "use crate::position::Fill;"
      ∷ "#[allow(unused_imports)]"
      ∷ "use rust_decimal::Decimal;"
      ∷ "use rust_decimal_macros::dec;"
      ∷ ""
      ∷ (generate_constants meta.params ++ "pub struct " ++ struct_name ++ " {")
      ∷ "    id: String,"
      ∷ "    tokens: Vec<String>,"
      ∷ "}"
      ∷ ""
      ∷ ("impl " ++ struct_name ++ " {")
      ∷ "    pub fn new() -> Self {"
      ∷ "        Self {"
      ∷ ("            id: \"" ++ meta.name ++ "\".to_string(),")
      ∷ ("            tokens: vec![" ++ join ", " (map token_literal meta.tokens) ++ "],")
      ∷ "        }"
      ∷ "    }"
      ∷ "}"
      ∷ ""
      ∷ ("impl Default for " ++ struct_name ++ " {")
      ∷ "    fn default() -> Self {"
      ∷ "        Self::new()"
      ∷ "    }"
      ∷ "}"
      ∷ ""
      ∷ ("impl Strategy for " ++ struct_name ++ " {")
      ∷ "    fn id(&self) -> &str {"
      ∷ "        &self.id"
      ∷ "    }"
      ∷ ""
      ∷ "    fn subscriptions(&self) -> Vec<String> {"
      ∷ "        self.tokens.clone()"
      ∷ "    }"
      ∷ ""
      ∷ "    fn on_tick(&mut self, ctx: &StrategyContext) -> Vec<Signal> {"
      ∷ on_tick_body
      ∷ "    }"
      ∷ ""
      ∷ "    fn on_fill(&mut self, _fill: &Fill) {}"
      ∷ "    fn on_shutdown(&mut self) {}"
      ∷ "}"
      ∷ ""
      ∷ [])

-- `generate`
unfoldable pub generate : StrategyMeta → Option String
generate meta = do
  body ← function_body meta.on_tick
  on_tick_body ← gen_function_body (int_params meta.params) body
  some (module_text meta on_tick_body)
