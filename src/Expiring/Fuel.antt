-- ===== src/Expiring/Fuel.antt =====
-- The loop over the batches ends.
use Prim.Native.Nat.{◌+◌ as plus_ℕ, ◌≤◌}
use pmt.Prelude.{
  ℕ, zero, suc, ◌≡◌, refl, ap, false, Option, none, some, List, [], ◌∷◌, ◌++◌, length, ltb, arith,
  if◌then◌else◌,
}
use pmt.Numeric.{Numeric}
use pmt.Expiring.{Event, Parsers, with_batch, scan_events, scan_batches}

with_batch-ap :
    {A : Type 0} (o : Option (List Event)) (k l : List Event → List A)
    → ((event : Event) (events : List Event) → k (event ∷ events) ≡ l (event ∷ events))
    → with_batch o k ≡ with_batch o l
with_batch-ap none k l h = refl
with_batch-ap (some []) k l h = refl
with_batch-ap (some (event ∷ events)) k l h = h event events

module _ {F T : Type 0} ⦃f : Numeric F⦄ (parsers : Parsers F T) (min_price_pct max_hours : F)
    (fetch : ℕ → Option (List Event)) (max_events : ℕ) where
  no_batch : (fetched : ℕ) → max_events ≤ fetched → ltb fetched max_events ≡ false
  no_batch fetched h = ground (arith)

  scan_batches-done :
      (fuel fetched offset : ℕ)
      → max_events ≤ fetched
      → scan_batches parsers min_price_pct max_hours fetch max_events fuel fetched offset ≡ []
  unfolding scan_batches
  scan_batches-done zero fetched offset h = refl
  scan_batches-done (suc fuel) fetched offset h = rw (no_batch fetched h) refl

  -- With fuel for the events that are left up to `max_events`, more fuel changes nothing: the loop
  -- has ended by itself.
  pub scan_batches_enough :
      (fuel more fetched offset : ℕ)
      → max_events ≤ plus_ℕ fetched fuel
      → fuel ≤ more
      → scan_batches parsers min_price_pct max_hours fetch max_events more fetched offset
        ≡ scan_batches parsers min_price_pct max_hours fetch max_events fuel fetched offset
  unfolding scan_batches
  scan_batches_enough zero more fetched offset h k =
      scan_batches-done more fetched offset (omega (arith, h))
  scan_batches_enough (suc fuel) zero fetched offset h k = absurd (omega (arith, k))
  scan_batches_enough (suc fuel) (suc more) fetched offset h k =
      with_batch-ap (if ltb fetched max_events then fetch offset else none) _ _ (λ event events.
        ap
          (λ rest.
            let found = scan_events parsers min_price_pct max_hours (event ∷ events) in
            if found.failed then found.added else found.added ++ rest)
          (scan_batches_enough fuel more (plus_ℕ fetched (length (event ∷ events)))
            (plus_ℕ offset 100) (omega (arith, h)) (omega (arith, k))))
