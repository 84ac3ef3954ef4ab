-- ===== src/Redeem/Resolved.antt =====
-- Which positions are reported as resolved, and with what payout.
use pmt.Prelude.{ℕ, String, Bool, none, some, List, [], ◌∷◌, ◌++◌, if◌then◌else◌, ltb, Option}
use pmt.Numeric.{Numeric, nought}
use pmt.Clob.Session.{Session}
use pmt.Clob.Chain.{ctf_contract, denominator_data, numerator_data}
use pmt.Clob.Holdings.{Position}
use pmt.Redeem.{ResolvedPosition, is_yes}

-- What the contract says of a condition and an outcome: none before it is resolved, and then whether
-- the outcome has a payout.
pub verdict : (String → String → ℕ) → String → String → Option Bool
verdict contract condition_id outcome =
    let index = if is_yes outcome then 0 else 1 in
    if ltb 0 (contract ctf_contract (denominator_data condition_id))
    then some (ltb 0 (contract ctf_contract (numerator_data condition_id index)))
    else none

module _ {F : Type 0} ⦃f : Numeric F⦄ where
  -- A position of which the verdict is known is reported, with its shares as the payout if it won.
  pub reported : Option Bool → Position F → List (ResolvedPosition F)
  reported none p = []
  reported (some won) p =
      record {
        position = p;
        condition_id = p.market;
        won = won;
        payout = if won then p.shares else nought;
      }
      ∷ []

  pub all_reported : (String → String → ℕ) → List (Position F) → List (ResolvedPosition F)
  all_reported contract [] = []
  all_reported contract (p ∷ ps) =
      reported (verdict contract p.market p.outcome) p ++ all_reported contract ps
