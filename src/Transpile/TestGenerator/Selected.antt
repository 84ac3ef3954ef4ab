-- ===== src/Transpile/TestGenerator/Selected.antt =====
-- What the generated tests share with the generated module, and when there are tests.
use pmt.Prelude.{
  String, true, ◌≡◌, refl, ap, arith, Option, none, some, List, [], ◌∷◌, not, if◌then◌else◌,
  Bool-cases, inl, inr, Returns, returned, Returns->>=, Returns-if,
}
use pmt.Dict.{Dict, lookup}
use pmt.Transpile.Texts.{has}
use pmt.Transpile.Params.{Value, Atom, constant_line}
use pmt.Transpile.Strategy.{StrategyMeta, Function, get_strategy_meta}
use pmt.Transpile.TestGenerator.{
  constant_names, test_constants, liquidity_tests, filter_tests, gen_filter_tests, generate,
  generate_tests, is_empty,
}

-- The parameters that become constants of the tests.
pub selected : Dict Value → Dict Value
selected [] = []
selected ((name, value) ∷ params) =
    let rest = selected params in if has constant_names name then (name, value) ∷ rest else rest

-- Each line after the attribute that permits that it is not used.
pub attributed : Dict Value → List String
attributed [] = []
attributed (param ∷ params) = "#[allow(dead_code)]" ∷ constant_line param ∷ attributed params

-- The constants of the tests are, line by line, those that the generated module has for the parameters
-- with one of the fourteen names, in the same order.
pub test_constants-selected :
    (params : Dict Value) → test_constants params ≡ attributed (selected params)
unfolding test_constants selected attributed constant_line
test_constants-selected [] = refl
test_constants-selected ((name, value) ∷ params) = elim (Bool-cases (has constant_names name)) [
  | inl e ↦ rw e (
      ap (λ rest. "#[allow(dead_code)]" ∷ constant_line (name, value) ∷ rest)
        (test_constants-selected params))
  | inr e ↦ rw e (test_constants-selected params)
]

module _ (halved : Value → Option String) (shown_list : List Atom → String) where
  liquidity_tests-Returns :
      (struct : String) (o : Option Value)
      → ((value : Value) → o ≡ some value → Returns (λ text. Unit {0}) (halved value))
      → Returns (λ tests. Unit {0}) (liquidity_tests halved shown_list struct o)
  unfolding liquidity_tests
  liquidity_tests-Returns struct none h = returned tt
  liquidity_tests-Returns struct (some value) h =
      Returns->>= (h value refl) λ low_liq u. returned tt

  -- The tests of a strategy are generated, if the function is decorated and, for a strategy without
  -- tokens, the parameter MIN_LIQUIDITY can be divided by two where there is one.
  pub generate_tests-Returns :
      (func : Function) (meta : StrategyMeta)
      → get_strategy_meta func ≡ some meta
      → (is_empty meta.tokens ≡ true
          → (value : Value) → lookup "MIN_LIQUIDITY" meta.params ≡ some value
          → Returns (λ text. Unit {0}) (halved value))
      → Returns (λ text. Unit {0}) (generate_tests halved shown_list func)
  unfolding generate_tests generate gen_filter_tests filter_tests
  generate_tests-Returns func meta e h = rw e (
      Returns->>= {Q = λ text. Unit {0}}
        (Returns-if (not (is_empty meta.tokens)) (λ no_discovery. returned tt)
          (λ discovery.
            Returns->>= {Q = λ tests. Unit {0}}
              (Returns->>=
                (liquidity_tests-Returns _ (lookup "MIN_LIQUIDITY" meta.params) (h (ground arith)))
                (λ tests u. returned tt))
              (λ tests u. returned tt)))
        (λ filters u. returned tt))
