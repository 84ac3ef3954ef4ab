-- ===== src/Transpile/Driver.antt =====
-- `transpile` of pmstrat/pmstrat/transpile.py, with what it prints.
pub mod Outcomes
pub mod Returns
use Prim.Native.String.{◌++◌}
use text.Mathlib.Text.{◌==◌}
use mathlib.Core.List as List
use pmt.Prelude.{
  ℕ, zero, suc, String, Bool, true, false, Option, none, some, List, [], ◌∷◌, map, length, ◌&&◌,
  if◌then◌else◌,
}
use pmt.Transpile.Chars.{pascal}
use pmt.Transpile.Texts.{join}
use pmt.Transpile.Reports.{ValidationError, Report}
use pmt.Transpile.Validator.{Parsed, validate}
use pmt.Transpile.Strategy.{StrategyMeta, Function, get_strategy_meta}
use pmt.Transpile.Module.{generate}

pub record TranspileResult : Type 0 where
  pub rust_code : String
  pub strategy_name : String
  pub struct_name : String
  pub tokens : List String

-- A result or an exception: the `ValueError` and the `TranspileError` that `transpile` raises with
-- their messages, and those that the generator raises.
pub data Outcome : Type 0 where
  returned : TranspileResult → Outcome
  value_error : String → Outcome
  transpile_error : String → Outcome
  generator_error : Outcome

-- The lines that are printed, and the outcome.
pub record Run : Type 0 where
  pub printed : List String
  pub outcome : Outcome

-- `validate_strategy`
unfoldable pub validate_strategy : Function → Report
validate_strategy func = elim (get_strategy_meta func) [
  | none ↦ record {
    errors =
        record { message = "Function is not decorated with @strategy"; lineno = none; hint = none }
        ∷ [];
    warnings = [];
  }
  | some meta ↦ validate func.source
]

-- The result for the code that is generated, or the exception.
abbrev pub result_for : StrategyMeta → Option String → Outcome
result_for meta none = generator_error
result_for meta (some rust_code) = returned (record {
  rust_code = rust_code;
  strategy_name = meta.name;
  struct_name = pascal true meta.name;
  tokens = meta.tokens;
})

unfoldable pub generated : StrategyMeta → Outcome
generated meta = result_for meta (generate meta)

-- `print_nat` is Python's `str` of a natural number.
module _ (print_nat : ℕ → String) where
  -- `f"Line {self.lineno}: "` of a line that there is.
  abbrev pub prefix : Option ℕ → String
  prefix none = ""
  prefix (some zero) = ""
  prefix (some (suc n)) = "Line " ++ print_nat (suc n) ++ ": "

  abbrev pub hint_text : Option String → String
  hint_text none = ""
  hint_text (some hint) = if hint == "" then "" else "\n    Hint: " ++ hint

  -- `str(error)`
  unfoldable pub error_text : ValidationError → String
  error_text e = prefix e.lineno ++ e.message ++ hint_text e.hint

  -- The message for all errors.
  unfoldable pub errors_message : StrategyMeta → List ValidationError → String
  errors_message meta errors =
      "Strategy '"
      ++ meta.name
      ++ "' has "
      ++ print_nat (length errors)
      ++ " validation error(s):\n"
      ++ join "" (map (λ e. "  - " ++ error_text e ++ "\n") errors)

  abbrev pub warning_line : ValidationError → String
  warning_line w = "  Warning: " ++ error_text w

  -- What follows the validation.
  unfoldable pub after_validation : Bool → StrategyMeta → Report → Run
  after_validation strict meta report = elim report.errors [
    | [] ↦ record { printed = map warning_line report.warnings; outcome = generated meta }
    | e ∷ es ↦
        if strict
        then record {
          printed = map warning_line report.warnings;
          outcome = transpile_error (errors_message meta (e ∷ es));
        }
        else record {
          printed =
              List.◌++◌ (map warning_line report.warnings)
                (("  " ++ errors_message meta (e ∷ es)) ∷ []);
          outcome = generated meta;
        }
  ]

  -- `transpile(strategy_func, validate, strict)`
  unfoldable pub transpile : Function → Bool → Bool → Run
  transpile strategy_func validates strict = elim (get_strategy_meta strategy_func) [
    | none ↦ record {
      printed = [];
      outcome = value_error "Function must be decorated with @strategy";
    }
    | some meta ↦
        if validates
        then after_validation strict meta (validate_strategy strategy_func)
        else record { printed = []; outcome = generated meta }
  ]
