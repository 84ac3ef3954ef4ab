-- ===== src/Cli/Linting/Accepted.antt =====
-- What the linter says and what the transpiler does.
use pmt.Prelude.{
  ℕ, String, ◌≡◌, refl, Bool, true, false, Option, none, some, List, [], ◌∷◌, Bool-cases,
  Option-cases, inl, inr,
}
use pmt.Transpile.Params.{Value, Atom}
use pmt.Transpile.Reports.{ValidationError}
use pmt.Transpile.Strategy.{StrategyMeta, Function, get_strategy_meta}
use pmt.Transpile.Driver.{
  Outcome, value_error, result_for, generated, validate_strategy, after_validation, transpile,
}
use pmt.Transpile.Driver.Outcomes.{is_transpile_error}
use pmt.Transpile.Module.{generate}
use pmt.Transpile.Validator.{validate}
use pmt.Cli.Transpiling.{
  Files, Single, find_strategy, write_strategy, transpile_found, transpile_module,
  transpile_single_strategy,
}
use pmt.Cli.Linting.{
  Lint, linted, skipped, raised, is_clean, lint_found, lint_module, lint_single_strategy,
}

module _ (print_nat : ℕ → String) (halved : Value → Option String) (shown_list : List Atom → String)
    (modules : String → Option (List Function)) where
  -- The outcome of a function without errors is no TranspileError; with errors nothing is written.
  abbrev Judged : String → Function → Files → Outcome → Bool → Type 0
  Judged name func files o true = is_transpile_error o ≡ false
  Judged name func files o false =
      write_strategy print_nat halved shown_list modules name func o files ≡ (Single.raised, files)

  result_for-accepted :
      (meta : StrategyMeta) (text : Option String)
      → is_transpile_error (result_for meta text) ≡ false
  result_for-accepted meta none = refl
  result_for-accepted meta (some text) = refl

  after_validation-Judged :
      (name : String) (func : Function) (files : Files) (meta : StrategyMeta)
      (errors warnings : List ValidationError)
      → Judged name func files
          (after_validation print_nat true meta
            (record { errors = errors; warnings = warnings })).outcome
          (is_clean errors)
  unfolding after_validation generated write_strategy
  after_validation-Judged name func files meta [] warnings =
      result_for-accepted meta (generate meta)
  after_validation-Judged name func files meta (e ∷ errors) warnings = refl

  module _ (func : Function) where
    undecorated :
        get_strategy_meta func ≡ none
        → (is_clean (validate_strategy func).errors ≡ false)
          × ((transpile print_nat func true true).outcome
              ≡ value_error "Function must be decorated with @strategy")
    unfolding transpile validate_strategy get_strategy_meta
    undecorated e = (rw e refl, rw e refl)

    decorated :
        (meta : StrategyMeta)
        → get_strategy_meta func ≡ some meta
        → (validate_strategy func ≡ validate func.source)
          × (transpile print_nat func true true
              ≡ after_validation print_nat true meta (validate func.source))
    unfolding transpile validate_strategy get_strategy_meta validate
    decorated meta e = (rw e refl, rw e refl)

  transpile-Judged :
      (name : String) (func : Function) (files : Files)
      → Judged name func files
          (transpile print_nat func true true).outcome
          (is_clean (validate_strategy func).errors)
  unfolding write_strategy
  transpile-Judged name func files = elim (Option-cases (get_strategy_meta func)) [
    | inl e ↦ rw ((undecorated func e).0, (undecorated func e).1) refl
    | inr (meta, e) ↦
        rw ((decorated func meta e).0, (decorated func meta e).1)
          (after_validation-Judged name func files meta (validate func.source).errors
            (validate func.source).warnings)
  ]

  -- What the transpiler does with a strategy, by what the linter says of it.
  pub data Agrees (name : String) (files : Files) : Lint → Type 0 where
    passes :
        {objects : List Function} {func : Function} {meta : StrategyMeta}
        → modules name ≡ some objects
        → find_strategy objects ≡ some (func, meta)
        → meta.transpilable ≡ true
        → is_transpile_error (transpile print_nat func true true).outcome ≡ false
        → Agrees name files (linted true)
    fails :
        transpile_single_strategy print_nat halved shown_list modules name files
          ≡ (Single.raised, files)
        → Agrees name files (linted false)
    skips :
        transpile_single_strategy print_nat halved shown_list modules name files
          ≡ (Single.skipped, files)
        → Agrees name files skipped
    raises :
        transpile_single_strategy print_nat halved shown_list modules name files
          ≡ (Single.raised, files)
        → Agrees name files raised

  judged-Agrees :
      (name : String) (files : Files) (objects : List Function) (func : Function)
      (meta : StrategyMeta) (b : Bool)
      → modules name ≡ some objects
      → find_strategy objects ≡ some (func, meta)
      → meta.transpilable ≡ true
      → Judged name func files (transpile print_nat func true true).outcome b
      → Agrees name files (linted b)
  unfolding transpile_single_strategy transpile_module transpile_found
  judged-Agrees name files objects func meta true h k t j = passes h k t j
  judged-Agrees name files objects func meta false h k t j = fails (rw h (rw k (rw t j)))

  found-Agrees :
      (name : String) (files : Files) (objects : List Function)
      (o : Option (Function × StrategyMeta))
      → modules name ≡ some objects
      → find_strategy objects ≡ o
      → Agrees name files (lint_found o)
  unfolding lint_found transpile_single_strategy transpile_module transpile_found
  found-Agrees name files objects none h k = raises (rw h (rw k refl))
  found-Agrees name files objects (some (func, meta)) h k = elim (Bool-cases meta.transpilable) [
    | inl t ↦ rw t (
        judged-Agrees name files objects func meta (is_clean (validate_strategy func).errors) h k t
          (transpile-Judged name func files))
    | inr t ↦ rw t (skips (rw h (rw k (rw t refl))))
  ]

  module-Agrees :
      (name : String) (files : Files) (o : Option (List Function))
      → modules name ≡ o
      → Agrees name files (lint_module o)
  unfolding lint_module transpile_single_strategy transpile_module
  module-Agrees name files none h = raises (rw h refl)
  module-Agrees name files (some objects) h =
      found-Agrees name files objects (find_strategy objects) h refl

  -- A strategy in which the linter finds errors, or that has no module or no strategy in it, raises when it is
  -- transpiled and no file is written; one that the linter skips is skipped; and one that it passes is
  -- transpilable and is not refused with a TranspileError.
  pub lint_single_strategy-Agrees :
      (name : String) (files : Files) → Agrees name files (lint_single_strategy modules name)
  unfolding lint_single_strategy
  lint_single_strategy-Agrees name files = module-Agrees name files (modules name) refl
