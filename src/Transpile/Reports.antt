-- ===== src/Transpile/Reports.antt =====
-- The messages of `StrategyValidator` in pmstrat/pmstrat/transpile.py.
use Prim.Native.String.{◌++◌}
use text.Mathlib.Text.{◌==◌, starts_with}
use pmt.Prelude.{ℕ, String, Bool, false, Option, none, some, List, [], ◌∷◌, ◌||◌, if◌then◌else◌}
use mathlib.Core.List as List
use pmt.Dict.{Dict, lookup, get_or}
use pmt.Transpile.Texts.{has}
use pmt.Transpile.Syntax.{
  Comprehension, list_comp, set_comp, dict_comp, generator_exp, Refused, with_stmt, try, raise_stmt,
  match,
}

pub record ValidationError : Type 0 where
  pub message : String
  pub lineno : Option ℕ
  pub hint : Option String

pub record Report : Type 0 where
  pub errors : List ValidationError
  pub warnings : List ValidationError

abbrev pub clean : Report
clean = record { errors = []; warnings = [] }

-- What one visit appends, and then the next.
infixr 40 ◌then◌
abbrev pub ◌then◌ : Report → Report → Report
a then b = record {
  errors = List.◌++◌ a.errors b.errors;
  warnings = List.◌++◌ a.warnings b.warnings;
}

abbrev pub error : ℕ → String → String → Report
error line message hint = record {
  errors = record { message = message; lineno = some line; hint = some hint } ∷ [];
  warnings = [];
}

abbrev pub warning : ℕ → String → String → Report
warning line message hint = record {
  errors = [];
  warnings = record { message = message; lineno = some line; hint = some hint } ∷ [];
}

-- `UNSUPPORTED_BUILTINS`
abbrev pub unsupported_builtins : List String
unsupported_builtins =
    "min" ∷ "max" ∷ "abs" ∷ "sum" ∷ "len" ∷ "range" ∷ "enumerate" ∷ "zip" ∷ "map" ∷ "filter"
    ∷ "sorted" ∷ "reversed" ∷ "list" ∷ "dict" ∷ "set" ∷ "print" ∷ "input" ∷ "open" ∷ "eval" ∷ "exec"
    ∷ []

abbrev pub hints : Dict String
hints =
    ("min", "Use explicit comparison: `if a < b: result = a else: result = b`")
    ∷ ("max", "Use explicit comparison: `if a > b: result = a else: result = b`")
    ∷ ("abs", "Use explicit comparison: `if x < 0: x = -x`")
    ∷ ("sum", "Use a loop: `total = 0; for x in items: total = total + x`")
    ∷ ("len", "Track length manually or use a different approach")
    ∷ ("range", "Use while loops or iterate over collections directly")
    ∷ ("print", "Remove debug prints before transpiling")
    ∷ ("sorted", "Sorting is not supported; pre-sort data if needed")
    ∷ []

unfoldable pub get_builtin_hint : String → String
get_builtin_hint id = get_or "This builtin is not supported in the DSL" (lookup id hints)

abbrev pub comprehension_error : Comprehension → ℕ → Report
comprehension_error list_comp line =
    error line "List comprehension not supported"
      "Use explicit for loops: `for x in items: result.append(...)`"
comprehension_error set_comp line =
    error line "Set comprehension not supported" "Use explicit for loops instead."
comprehension_error dict_comp line =
    error line "Dict comprehension not supported" "Use explicit for loops instead."
comprehension_error generator_exp line =
    error line "Generator expression not supported" "Use explicit for loops instead."

unfoldable pub import_warnings : ℕ → List String → Report
import_warnings line [] = clean
import_warnings line (id ∷ names) =
    (if has ("decimal" ∷ "pmstrat" ∷ "datetime" ∷ []) id
      then clean
      else warning line ("Import '" ++ id ++ "' may not be supported")
          "Only 'decimal', 'datetime', and 'pmstrat' imports are fully supported.")
    then import_warnings line names

-- The modules that may be imported from, with the dots at their beginning and without.
abbrev pub allowed_modules : List (String × String)
allowed_modules =
    ("decimal", "decimal")
    ∷ ("pmstrat", "pmstrat")
    ∷ ("datetime", "datetime")
    ∷ ("..dsl", "dsl")
    ∷ ("..signal", "signal")
    ∷ ("..context", "context")
    ∷ (".dsl", "dsl")
    ∷ (".signal", "signal")
    ∷ (".context", "context")
    ∷ []

unfoldable pub is_allowed : String → List (String × String) → Bool
is_allowed id [] = false
is_allowed id ((dotted, plain) ∷ modules) =
    starts_with id plain || (id == dotted || is_allowed id modules)

unfoldable pub import_from_warning : ℕ → Option String → Report
import_from_warning line none = clean
import_from_warning line (some id) =
    if id == "" || is_allowed id allowed_modules
    then clean
    else warning line ("Import from '" ++ id ++ "' may not be supported")
        "Only 'decimal', 'datetime', and 'pmstrat' imports are fully supported."

abbrev pub refused_error : Refused → ℕ → Report
refused_error with_stmt line =
    error line "'with' statement not supported"
      "Context managers don't translate to Rust. Use explicit setup/cleanup."
refused_error try line =
    error line "try/except not supported"
      "Use explicit None checks: `if value is None: return [Hold()]`"
refused_error raise_stmt line =
    error line "'raise' not supported"
      "Return Hold() or Shutdown() signals instead of raising exceptions."
refused_error match line =
    error line "'match' statement not supported" "Use if/elif/else chains instead."
