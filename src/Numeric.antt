-- ===== src/Numeric.antt =====
-- The numbers of the Python code, `decimal.Decimal` and `float`: a type with the operations that
-- the code uses. A number stands for its value, so `Decimal("1")` and `Decimal("1.00")` are one.
-- No operation here is a NaN or an infinity: `Decimal` raises where it would make one.
pub mod Order
pub mod Exact
pub mod Rational
use pmt.Prelude.{ℕ, ◌≡◌, Bool, true, false, not, Option, none, some, if◌then◌else◌, ◌||◌}

pub record Numeric (D : Type 0) : Type 0 where
  -- `lit 95 2` is the literal 0.95.
  pub lit : ℕ → ℕ → D
  pub plus : D → D → D
  pub minus : D → D → D
  pub times : D → D → D
  pub over : D → D → D
  pub negate : D → D
  pub less : D → D → Bool

module _ {D : Type 0} ⦃d : Numeric D⦄ where
  infixl 65 ◌+◌ ◌-◌
  infixl 70 ◌*◌ ◌/◌
  infix 50 ◌<?◌ ◌≤?◌ ◌<◌ ◌≤◌
  abbrev pub ◌+◌ : D → D → D
  a + b = d.plus a b

  abbrev pub ◌-◌ : D → D → D
  a - b = d.minus a b

  abbrev pub ◌*◌ : D → D → D
  a * b = d.times a b

  -- Division by a number that is not zero.
  abbrev pub ◌/◌ : D → D → D
  a / b = d.over a b

  abbrev pub ◌<?◌ : D → D → Bool
  a <? b = d.less a b

  abbrev pub ◌≤?◌ : D → D → Bool
  a ≤? b = not (d.less b a)

  abbrev pub ◌<◌ : D → D → Type 0
  a < b = d.less a b ≡ true

  abbrev pub ◌≤◌ : D → D → Type 0
  a ≤ b = d.less b a ≡ false

  abbrev pub nought : D
  nought = d.lit 0 0

  abbrev pub one : D
  one = d.lit 1 0

  -- `min(a, b)` keeps the first of two equal arguments.
  abbrev pub min : D → D → D
  min a b = if b <? a then b else a

  -- A division that raises on a divisor of zero.
  abbrev pub divide : D → D → Option D
  divide a b = if b <? nought || nought <? b then some (a / b) else none
