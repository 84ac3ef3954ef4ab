-- ===== src/Transpile/Expressions/Gives.antt =====
-- When the steps of a generator have a value.
use mathlib.Core.Option as Option
use pmt.Prelude.{
  String, ◌≡◌, refl, Bool, true, false, Option, none, some, List, [], ◌∷◌, if◌then◌else◌, ◌>>=◌,
  All,
}
use pmt.Transpile.Syntax.{Expr, name, constant, Exprs, item}
use pmt.Transpile.Calls.{all_of, named, decimal_call, borrowed}

-- There is a value.
pub data Gives {A : Type 0} : Option A → Type 0 where
  gives : {a : A} → Gives (some a)

pub given : {A : Type 0} {o : Option A} → Gives o → (a : A) × (o ≡ some a)
given {o = some a} gives = (a, refl)
given {o = none} g = elim g [ ]

pub Gives-bind :
    {A B : Type 0} {o : Option A} (f : A → Option B)
    → Gives o
    → ((a : A) → Gives (f a))
    → Gives (o >>= f)
Gives-bind {o = some a} f gives k = k a
Gives-bind {o = none} f g k = elim g [ ]

pub all_of-Gives : (os : List (Option String)) → All (λ o. Gives o) os → Gives (all_of os)
unfolding all_of
all_of-Gives [] h = gives
all_of-Gives (o ∷ os) h = Gives-bind _ h.0 (λ t. Gives-bind _ (all_of-Gives os h.1) (λ ts. gives))

pub named-Gives :
    (kws : List (Option String × Option String)) → All (λ k. Gives k.1) kws → Gives (named kws)
unfolding named
named-Gives [] h = gives
named-Gives ((arg, o) ∷ kws) h =
    Gives-bind _ h.0 (λ t. Gives-bind _ (named-Gives kws h.1) (λ ts. gives))

pub map-Gives : {A B : Type 0} {o : Option A} (f : A → B) → Gives o → Gives (Option.map f o)
map-Gives {o = some a} f gives = gives
map-Gives {o = none} f g = elim g [ ]

pub if-Gives :
    {A : Type 0} (b : Bool) {x y : Option A}
    → (b ≡ true → Gives x)
    → (b ≡ false → Gives y)
    → Gives (if b then x else y)
if-Gives true f g = f refl
if-Gives false f g = g refl

pub decimal_text-Gives :
    (e : Expr) (es : Exprs) (t : Option String) (ts : List (Option String))
    → Gives t
    → Gives (decimal_call (item e es) (t ∷ ts))
unfolding decimal_call
decimal_text-Gives (constant c) es t ts g = gives
decimal_text-Gives e es t ts g = Gives-bind _ g (λ t. gives)

pub borrowed-Gives :
    (strings : List String) (e : Expr) (o : Option String) → Gives o → Gives (borrowed strings e o)
unfolding borrowed
borrowed-Gives strings (name id) o g = gives
borrowed-Gives strings _ o g = g
