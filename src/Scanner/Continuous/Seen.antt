-- ===== src/Scanner/Continuous/Seen.antt =====
-- Which opportunities `scan_continuous` shows, and how many scans there are.
use Prim.Native.Nat.{ℕ, suc}
use pmt.Prelude.{false, ◌≡◌, Option, List, [], ◌∷◌, ◌++◌, map, Bool-cases, inl, inr}
use pmt.Scanner.{VolumeCliffOpportunity}
use pmt.Scanner.Continuous.{
  Key, key_of, is_seen, filter_new, Round, scanned, raised, interrupted, goes_on, scan_continuous,
}

-- Every key is new: it is not among those seen, nor among those before it.
pub AllNew : List Key → List Key → Type 0
AllNew seen [] = Unit
AllNew seen (key ∷ keys) = (is_seen key seen ≡ false) × AllNew (key ∷ seen) keys

-- The keys of all tables, from the first to the last.
pub shown_keys : {F : Type 0} → List (List (VolumeCliffOpportunity F)) → List Key
shown_keys [] = []
shown_keys (table ∷ tables) = map key_of table ++ shown_keys tables

filter_new-AllNew :
    {F : Type 0} (opps : List (VolumeCliffOpportunity F)) (seen rest : List Key)
    → AllNew (filter_new seen opps).1 rest
    → AllNew seen (map key_of (filter_new seen opps).0 ++ rest)
unfolding filter_new AllNew
filter_new-AllNew [] seen rest h = h
filter_new-AllNew (opp ∷ opps) seen rest h = elim (Bool-cases (is_seen (key_of opp) seen)) [
  | inl e ↦ rw e (filter_new-AllNew opps seen rest (rw e at h))
  | inr e ↦ rw e (e, filter_new-AllNew opps (key_of opp ∷ seen) rest (rw e at h))
]

-- Over all the scans of a session no question is shown twice with the same outcome, nor one that was seen before,
-- however the rounds end.
pub scan_continuous-AllNew :
    {F : Type 0} (max_iterations : Option ℕ) (rounds : List (Round F)) (iteration : ℕ)
    (seen : List Key)
    → AllNew seen (shown_keys (scan_continuous max_iterations iteration seen rounds))
unfolding scan_continuous shown_keys AllNew
scan_continuous-AllNew max_iterations [] iteration seen = tt
scan_continuous-AllNew max_iterations (interrupted ∷ rounds) iteration seen = tt
scan_continuous-AllNew max_iterations (raised ∷ rounds) iteration seen =
    elim (Bool-cases (goes_on max_iterations iteration)) [
      | inl e ↦ rw e (scan_continuous-AllNew max_iterations rounds iteration seen)
      | inr e ↦ rw e tt
    ]
scan_continuous-AllNew max_iterations (scanned opps ∷ rounds) iteration seen =
    elim (Bool-cases (goes_on max_iterations iteration)) [
      | inl e ↦ rw e (
          filter_new-AllNew opps seen _
            (scan_continuous-AllNew max_iterations rounds (suc iteration) (filter_new seen opps).1))
      | inr e ↦ rw e tt
    ]
