-- ===== src/Scanner/Continuous.antt =====
-- pmtrader/strategies/scanner.py: `scan_once`, over the data of pmtrader/polymarket/clob.py, and
-- `scan_continuous`, which shows each opportunity once. What happens in each round is an argument.
pub mod Seen
use Prim.Native.Nat.{ℕ, suc}
use text.Mathlib.Text.{◌==◌}
use pmt.Prelude.{
  String, Bool, true, false, Option, none, some, List, [], ◌∷◌, if◌then◌else◌, ◌&&◌, ltb,
}
use pmt.Numeric.{Numeric}
use pmt.Clob.Books.{RawBook, RawMarket, order_book, sampling_markets}
use pmt.Scanner.{VolumeCliffOpportunity, find_volume_cliff_opportunities}

module _ {F : Type 0} ⦃f : Numeric F⦄ where
  -- The markets of the response, none where the request raises, and the books by their tokens.
  unfoldable pub scan_once :
      (String → Option F)
      → (String → Option RawBook)
      → F
      → F
      → F
      → F
      → Option (Option (List (RawMarket F)))
      → Option (List (VolumeCliffOpportunity F))
  scan_once to_float books min_pct max_pct jump gap none = none
  scan_once to_float books min_pct max_pct jump gap (some response) = some (
      find_volume_cliff_opportunities (λ token_id name. order_book to_float (books token_id) name)
        min_pct max_pct jump gap (sampling_markets 100 response))

-- The question and the outcome of an opportunity.
abbrev pub Key : Type 0
Key = String × String

abbrev pub key_of : {F : Type 0} → VolumeCliffOpportunity F → Key
key_of opp = (opp.market.question, opp.token.outcome)

abbrev pub same_key : Key → Key → Bool
same_key a b = a.0 == b.0 && a.1 == b.1

-- `key in seen_opportunities`
unfoldable pub is_seen : Key → List Key → Bool
is_seen key [] = false
is_seen key (other ∷ seen) = if same_key other key then true else is_seen key seen

-- The new opportunities of a scan, and those seen after it.
unfoldable pub filter_new :
    {F : Type 0}
    → List Key
    → List (VolumeCliffOpportunity F)
    → List (VolumeCliffOpportunity F) × List Key
filter_new seen [] = ([], seen)
filter_new seen (opp ∷ opps) =
    let old = filter_new seen opps in
    let new = filter_new (key_of opp ∷ seen) opps in
    if is_seen (key_of opp) seen then old else (opp ∷ new.0, new.1)

-- A round of the loop: a scan, an exception, or an interrupt from the keyboard.
pub data Round (F : Type 0) : Type 0 where
  scanned : List (VolumeCliffOpportunity F) → Round F
  raised : Round F
  interrupted : Round F

-- `max_iterations is None or iteration < max_iterations`
abbrev pub goes_on : Option ℕ → ℕ → Bool
goes_on none iteration = true
goes_on (some max_iterations) iteration = ltb iteration max_iterations

-- The new opportunities of each scan. A round that raises an exception is not counted.
unfoldable pub scan_continuous :
    {F : Type 0} → Option ℕ → ℕ → List Key → List (Round F) → List (List (VolumeCliffOpportunity F))
scan_continuous max_iterations iteration seen [] = []
scan_continuous max_iterations iteration seen (interrupted ∷ rounds) = []
scan_continuous max_iterations iteration seen (raised ∷ rounds) =
    let rest = scan_continuous max_iterations iteration seen rounds in
    if goes_on max_iterations iteration then rest else []
scan_continuous max_iterations iteration seen (scanned opps ∷ rounds) =
    let found = filter_new seen opps in
    let rest = scan_continuous max_iterations (suc iteration) found.1 rounds in
    if goes_on max_iterations iteration then found.0 ∷ rest else []
