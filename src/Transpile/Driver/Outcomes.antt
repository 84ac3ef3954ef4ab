-- ===== src/Transpile/Driver/Outcomes.antt =====
-- When a strategy is refused, and what validation leaves as it is.
use mathlib.Core.Bool.{true≢false}
use pmt.Prelude.{
  ℕ, String, ◌≡◌, refl, ap, Bool, true, false, Option, none, some, List, [], ◌∷◌, not, ◌&&◌, arith,
  ◌∙◌,
}
use pmt.Transpile.Reports.{ValidationError}
use pmt.Transpile.Validator.{Parsed, module_body, syntax_error, validate}
use pmt.Transpile.Validator.Nodes.{nodes_of_stmts, all_permitted}
use pmt.Transpile.Validator.Judges.{is_empty}
use pmt.Transpile.Validator.Accepts.{is_empty-visit_stmts}
use pmt.Transpile.Strategy.{StrategyMeta, Function, get_strategy_meta}
use pmt.Transpile.Module.{generate}
use pmt.Transpile.Driver.{
  Outcome, transpile_error, generated, after_validation, validate_strategy, transpile, result_for,
}

-- The source is a module all of whose nodes are permitted.
unfoldable pub accepted : Parsed → Bool
accepted (syntax_error message line) = false
accepted (module_body body) = all_permitted (nodes_of_stmts false body)

abbrev pub has_meta : Option StrategyMeta → Bool
has_meta none = false
has_meta (some meta) = true

abbrev pub is_transpile_error : Outcome → Bool
is_transpile_error (transpile_error message) = true
is_transpile_error _ = false

validate-accepted : (p : Parsed) → is_empty (validate p).errors ≡ accepted p
unfolding validate accepted
validate-accepted (syntax_error message line) = refl
validate-accepted (module_body body) = is_empty-visit_stmts false body

result_for-not_refused :
    (meta : StrategyMeta) (code : Option String) → is_transpile_error (result_for meta code) ≡ false
result_for-not_refused meta none = refl
result_for-not_refused meta (some code) = refl

generated-not_refused : (meta : StrategyMeta) → is_transpile_error (generated meta) ≡ false
unfolding generated
generated-not_refused meta = result_for-not_refused meta (generate meta)

abbrev with_meta : Parsed → Option StrategyMeta → Function
with_meta source o = record { source = source; strategy_meta = o }

module _ (print_nat : ℕ → String) where
  after_validation-refused :
      (strict : Bool) (meta : StrategyMeta) (errors warnings : List ValidationError)
      → is_transpile_error
          (after_validation print_nat strict meta
            (record { errors = errors; warnings = warnings })).outcome
        ≡ (strict && not (is_empty errors))
  unfolding after_validation
  after_validation-refused strict meta [] warnings = ground (arith, generated-not_refused meta)
  after_validation-refused true meta (e ∷ es) warnings = refl
  after_validation-refused false meta (e ∷ es) warnings = generated-not_refused meta

  after_validation-same :
      (strict : Bool) (meta : StrategyMeta) (errors warnings : List ValidationError)
      → is_transpile_error
          (after_validation print_nat strict meta
            (record { errors = errors; warnings = warnings })).outcome
        ≡ false
      → (after_validation print_nat strict meta
          (record { errors = errors; warnings = warnings })).outcome
        ≡ generated meta
  unfolding after_validation
  after_validation-same strict meta [] warnings h = refl
  after_validation-same true meta (e ∷ es) warnings h = absurd (true≢false h)
  after_validation-same false meta (e ∷ es) warnings h = refl

  refused_at :
      (source : Parsed) (o : Option StrategyMeta) (strict : Bool)
      → is_transpile_error (transpile print_nat (with_meta source o) true strict).outcome
        ≡ (strict && (has_meta o && not (accepted source)))
  unfolding transpile get_strategy_meta validate_strategy
  refused_at source none strict = ground arith
  refused_at source (some meta) strict =
      after_validation-refused strict meta (validate source).errors (validate source).warnings
      ∙ ap (λ b. strict && not b) (validate-accepted source)

  unvalidated_at :
      (source : Parsed) (o : Option StrategyMeta) (validates strict : Bool)
      → is_transpile_error (transpile print_nat (with_meta source o) validates strict).outcome
        ≡ false
      → (transpile print_nat (with_meta source o) validates strict).outcome
        ≡ (transpile print_nat (with_meta source o) false false).outcome
  unfolding transpile get_strategy_meta validate_strategy
  unvalidated_at source none validates strict h = refl
  unvalidated_at source (some meta) false strict h = refl
  unvalidated_at source (some meta) true strict h =
      after_validation-same strict meta (validate source).errors (validate source).warnings h

  -- With validation, a function is refused with a `TranspileError` exactly if `strict` is on, the
  -- function is decorated with `strategy`, and its source is not a module all of whose nodes are
  -- permitted.
  pub is_transpile_error-transpile :
      (func : Function) (strict : Bool)
      → is_transpile_error (transpile print_nat func true strict).outcome
        ≡ (strict && (has_meta func.strategy_meta && not (accepted func.source)))
  is_transpile_error-transpile func strict = refused_at func.source func.strategy_meta strict

  -- A function that is not refused with a `TranspileError` has the outcome that it has without
  -- validation: the same code, the same exception of the generator, or the same `ValueError`.
  pub transpile-unvalidated :
      (func : Function) (validates strict : Bool)
      → is_transpile_error (transpile print_nat func validates strict).outcome ≡ false
      → (transpile print_nat func validates strict).outcome
        ≡ (transpile print_nat func false false).outcome
  transpile-unvalidated func validates strict h =
      unvalidated_at func.source func.strategy_meta validates strict h
