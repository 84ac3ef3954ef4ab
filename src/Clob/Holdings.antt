-- ===== src/Clob/Holdings.antt =====
-- `positions` of clob.py: the outcome tokens of the trades, and how many shares of each are held.
pub mod Distinct
pub mod Ledger
pub mod Cost
use Prim.Native.Nat.{ℕ}
use pmt.Prelude.{
  String, Bool, true, false, Option, none, some, List, [], ◌∷◌, length, leb, if◌then◌else◌,
}
use pmt.Numeric.{Numeric, ◌<?◌}
use pmt.Dict.{Dict, lookup, insert}
use pmt.Clob.Session.{Response, Outcome, returned, failed, Session, sleep}
use pmt.Clob.Chain.{token_balance}

pub record Trade : Type 0 where
  pub asset_id : String
  pub outcome : String
  pub market : String

pub record Meta : Type 0 where
  pub outcome : String
  pub market : String

pub record Position (F : Type 0) : Type 0 where
  pub token_id : String
  pub outcome : String
  pub market : String
  pub shares : F

abbrev pub meta_of : Trade → Meta
meta_of t = record { outcome = t.outcome; market = t.market }

abbrev pub is_some {ℓ} : {A : Type ℓ} → Option A → Bool
is_some none = false
is_some (some a) = true

unfoldable pub note_trade : Trade → Dict Meta → Dict Meta
note_trade t token_meta =
    if is_some (lookup t.asset_id token_meta)
    then token_meta
    else insert t.asset_id (meta_of t) token_meta

-- The loop over the trades, which ends once there are `max_tokens` tokens.
unfoldable pub meta_loop : ℕ → List Trade → Dict Meta → Dict Meta
meta_loop max_tokens [] token_meta = token_meta
meta_loop max_tokens (t ∷ trades) token_meta =
    let rest = meta_loop max_tokens trades (note_trade t token_meta) in
    if leb max_tokens (length token_meta) then token_meta else rest

-- Before each token but the first the loop sleeps for 0.3 seconds.
abbrev pub throttle : Bool → Session → Session
throttle first s = if first then s else sleep 300 s

module _ {F : Type 0} ⦃f : Numeric F⦄ where
  -- What one balance adds: nothing where it could not be read, or is 0.01 or less.
  unfoldable pub holding : String → Meta → Outcome F → Option (Position F)
  holding token_id m (failed e) = none
  holding token_id m (returned balance) =
      if f.lit 1 2 <? balance
      then some
          (record { token_id = token_id; outcome = m.outcome; market = m.market; shares = balance })
      else none

  abbrev pub with_holding : Option (Position F) → List (Position F) → List (Position F)
  with_holding none positions = positions
  with_holding (some p) positions = p ∷ positions

  module _ (post : String → String → ℕ → Response) (funder : String) where
    unfoldable pub balance_loop : Bool → Dict Meta → Session → List (Position F) × Session
    balance_loop first [] s = ([], s)
    balance_loop first ((token_id, m) ∷ tokens) s =
        let (balance, t) = token_balance post funder token_id (throttle first s) in
        let (positions, u) = balance_loop false tokens t in
        (with_holding (holding token_id m balance) positions, u)

    -- The function of what `self.trades()` gives, the answer of py_clob_client. The session counts the
    -- requests to the node: neither those for the trades nor those for a token of the proxy.
    unfoldable pub positions : ℕ → List Trade → Session → List (Position F) × Session
    positions max_tokens trades s = balance_loop true (meta_loop max_tokens trades []) s
