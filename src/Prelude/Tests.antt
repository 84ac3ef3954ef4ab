-- ===== src/Prelude/Tests.antt =====
-- Boolean tests, the conditional, case splits that keep the equation, and `do` over `Option`.
use Prim.Native.Nat.{ℕ, compare, Ordering}
use mathlib.Core.Path.{◌≡◌, refl, subst}
use mathlib.Core.Logic.{◌⊎◌, inl, inr}
use mathlib.Core.Bool.{Bool, true, false}
use mathlib.Core.Option.{Option, none, some, some-injective}

abbrev pub ltb : ℕ → ℕ → Bool
ltb a b = elim (compare a b) [ Ordering.lt ↦ true | _ ↦ false ]

abbrev pub leb : ℕ → ℕ → Bool
leb a b = elim (compare a b) [ Ordering.gt ↦ false | _ ↦ true ]

infix 1 if◌then◌else◌
abbrev pub if◌then◌else◌ {ℓ} : {A : Type ℓ} → Bool → A → A → A
if true then x else y = x
if false then x else y = y

pub Bool-cases : (b : Bool) → (b ≡ true) ⊎ (b ≡ false)
Bool-cases true = inl refl
Bool-cases false = inr refl

pub Option-cases {ℓ} : {A : Type ℓ} (o : Option A) → (o ≡ none) ⊎ ((a : A) × (o ≡ some a))
Option-cases none = inl refl
Option-cases (some a) = inr (a, refl)

-- A raised exception is `none`: the rest of the block is not run.
infixl 5 ◌>>=◌
abbrev pub ◌>>=◌ {ℓ κ} : {A : Type ℓ} {B : Type κ} → Option A → (A → Option B) → Option B
none >>= f = none
some a >>= f = f a

infixl 5 ◌>>◌
abbrev pub ◌>>◌ {ℓ κ} : {A : Type ℓ} {B : Type κ} → Option A → Option B → Option B
none >> n = none
some a >> n = n

-- `continue` where the test holds, as in `if ...: continue`.
abbrev pub skip_if : Bool → Option {0} Unit
skip_if b = if b then none else some tt

-- Inversion of a block that returned.
pub >>=-eq-some {ℓ κ} :
    {A : Type ℓ} {B : Type κ} (m : Option A) (f : A → Option B) {b : B}
    → (m >>= f) ≡ some b
    → (a : A) × (m ≡ some a) × (f a ≡ some b)
>>=-eq-some none f h = cc
>>=-eq-some (some a) f h = (a, refl, h)

-- What holds of the result of a block, if it returns.
pub data Ensures {ℓ κ} {A : Type ℓ} (P : A → Type κ) : Option A → Type (ℓ ⊔ κ) where
  raises : Ensures P none
  gives : {a : A} → P a → Ensures P (some a)

pub Ensures->>= {ℓ κ μ ν} :
    {A : Type ℓ} {B : Type κ} {Q : A → Type μ} {P : B → Type ν} {m : Option A} {f : A → Option B}
    → Ensures Q m
    → ((a : A) → Q a → Ensures P (f a))
    → Ensures P (m >>= f)
Ensures->>= raises k = raises
Ensures->>= (gives {a} q) k = k a q

pub Ensures-map {ℓ κ μ} :
    {A : Type ℓ} {P : A → Type κ} {Q : A → Type μ} {m : Option A}
    → Ensures P m
    → ((a : A) → P a → Q a)
    → Ensures Q m
Ensures-map raises k = raises
Ensures-map (gives {a} p) k = gives (k a p)

-- What follows a test knows that the test failed.
pub Ensures-skip_if {ℓ κ} :
    {A : Type ℓ} {P : A → Type κ} (c : Bool) {m : Option A}
    → (c ≡ false → Ensures P m)
    → Ensures P (skip_if c >> m)
Ensures-skip_if true k = raises
Ensures-skip_if false k = k refl

-- The equation itself is what is known of any block.
pub Ensures-self {ℓ} : {A : Type ℓ} (m : Option A) → Ensures (λ a. m ≡ some a) m
Ensures-self none = raises
Ensures-self (some a) = gives refl

pub Ensures-elim {ℓ κ} :
    {A : Type ℓ} {P : A → Type κ} {m : Option A} {a : A} → Ensures P m → m ≡ some a → P a
Ensures-elim raises e = cc
Ensures-elim {P} (gives p) e = subst P (some-injective _ _ e) p

pub Ensures-if {ℓ κ} :
    {A : Type ℓ} {P : A → Type κ} (c : Bool) {x y : Option A}
    → (c ≡ true → Ensures P x)
    → (c ≡ false → Ensures P y)
    → Ensures P (if c then x else y)
Ensures-if true h k = h refl
Ensures-if false h k = k refl

-- The block returns, and this holds of its result.
pub data Returns {ℓ κ} {A : Type ℓ} (P : A → Type κ) : Option A → Type (ℓ ⊔ κ) where
  returned : {a : A} → P a → Returns P (some a)

pub Returns->>= {ℓ κ μ ν} :
    {A : Type ℓ} {B : Type κ} {Q : A → Type μ} {P : B → Type ν} {m : Option A} {f : A → Option B}
    → Returns Q m
    → ((a : A) → Q a → Returns P (f a))
    → Returns P (m >>= f)
Returns->>= (returned {a} q) k = k a q

pub Returns-if {ℓ κ} :
    {A : Type ℓ} {P : A → Type κ} (c : Bool) {x y : Option A}
    → (c ≡ true → Returns P x)
    → (c ≡ false → Returns P y)
    → Returns P (if c then x else y)
Returns-if true h k = h refl
Returns-if false h k = k refl

pub Returns-elim {ℓ κ} :
    {A : Type ℓ} {P : A → Type κ} {m : Option A} → Returns P m → (a : A) × (m ≡ some a) × P a
Returns-elim (returned {a} p) = (a, refl, p)

-- What holds of a result if there is one, and that there is one.
pub Returns-and {ℓ κ μ} :
    {A : Type ℓ} {P : A → Type κ} {Q : A → Type μ} {m : Option A}
    → Ensures P m
    → Returns Q m
    → Returns (λ a. P a × Q a) m
Returns-and raises q = elim q [ ]
Returns-and (gives p) (returned q) = returned (p, q)

pub Ensures-and {ℓ κ μ} :
    {A : Type ℓ} {P : A → Type κ} {Q : A → Type μ} {m : Option A}
    → Ensures P m
    → Ensures Q m
    → Ensures (λ a. P a × Q a) m
Ensures-and raises q = raises
Ensures-and (gives p) (gives q) = gives (p, q)
