-- ===== src/Signal.antt =====
-- pmstrat/pmstrat/signal.py: the signals that a strategy returns on a tick.
use pmt.Prelude.{String, List, [], ◌∷◌, ◌≡◌, ◌⊎◌, inl, inr, refl}

pub data Urgency : Type 0 where
  low medium high immediate : Urgency

pub data Signal (D : Type 0) : Type 0 where
  -- The token, the price, the size and the urgency.
  buy : String → D → D → Urgency → Signal D
  sell : String → D → D → Urgency → Signal D
  cancel : String → Signal D
  hold : Signal D
  shutdown : String → Signal D

module _ {D : Type 0} where
  -- `return signals if signals else [Hold()]`, with which a strategy ends.
  abbrev pub or_hold : List (Signal D) → List (Signal D)
  or_hold [] = hold ∷ []
  or_hold signals = signals

  pub or_hold-cases :
      (signals : List (Signal D)) → (or_hold signals ≡ hold ∷ []) ⊎ (or_hold signals ≡ signals)
  or_hold-cases [] = inl refl
  or_hold-cases (s ∷ signals) = inr refl
