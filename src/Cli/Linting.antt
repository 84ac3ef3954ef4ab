-- ===== src/Cli/Linting.antt =====
-- `run_lint` of pmstrat/pmstrat/cli.py: strategies are validated and not transpiled.
pub mod Accepted
use pmt.Prelude.{
  ℕ, suc, String, Bool, true, false, not, Option, none, some, List, [], ◌∷◌, if◌then◌else◌,
}
use pmt.Transpile.Reports.{ValidationError}
use pmt.Transpile.Strategy.{StrategyMeta, Function}
use pmt.Transpile.Driver.{validate_strategy}
use pmt.Cli.Transpiling.{find_strategy}

-- How `lint_single_strategy` ends: true or false, None for a strategy that is not transpilable, or an
-- exception.
pub data Lint : Type 0 where
  linted : Bool → Lint
  skipped : Lint
  raised : Lint

abbrev pub is_clean : List ValidationError → Bool
is_clean [] = true
is_clean (e ∷ errors) = false

unfoldable pub lint_found : Option (Function × StrategyMeta) → Lint
lint_found none = raised
lint_found (some (func, meta)) =
    if not meta.transpilable then skipped else linted (is_clean (validate_strategy func).errors)

unfoldable pub lint_module : Option (List Function) → Lint
lint_module none = raised
lint_module (some objects) = lint_found (find_strategy objects)

pub record Summary : Type 0 where
  pub passed : ℕ
  pub failed : ℕ
  pub skipped : ℕ

unfoldable pub counted : Lint → Summary → Summary
counted (linted true) s = record s { passed = suc s.passed }
counted (linted false) s = record s { failed = suc s.failed }
counted skipped s = record s { skipped = suc s.skipped }
counted raised s = record s { failed = suc s.failed }

-- `modules` gives the objects of a strategy's module, none where it is missing.
module _ (modules : String → Option (List Function)) where
  unfoldable pub lint_single_strategy : String → Lint
  lint_single_strategy name = lint_module (modules name)

  -- The loop over the names, which are sorted.
  unfoldable pub lint_loop : List String → Summary → Summary
  lint_loop [] s = s
  lint_loop (name ∷ names) s = lint_loop names (counted (lint_single_strategy name) s)

  unfoldable pub lint_all : List String → Summary
  lint_all names = lint_loop names (record { passed = 0; failed = 0; skipped = 0 })
