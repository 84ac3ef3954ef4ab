-- ===== src/Redeem.antt =====
-- pmtrader/redeem.py: which positions are on markets that have been resolved, and the calls that
-- redeem them. What the client of the relay gives for its n-th call is a parameter.
pub mod Resolved
pub mod Calls
use Prim.Native.Nat.{ℕ, zero, suc, ◌+◌, ◌*◌, ◌%◌}
use Prim.Native.String.{String}
use text.Mathlib.Text.{◌==◌}
use pmt.Prelude.{
  Bool, true, false, not, Option, none, some, List, [], ◌∷◌, ◌++◌, length, ltb, leb, if◌then◌else◌,
  ◌||◌, ◌&&◌,
}
use pmt.Numeric.{Numeric, nought}
use pmt.Strategies.Words.{lower}
use pmt.Clob.Rpc.{is_rate_limit}
use pmt.Clob.Session.{
  Response, Outcome, returned, failed, Session, sleep, Client, ◌>>=◌, pure, parsed,
}
use pmt.Clob.Chain.{is_condition_resolved, get_payout_numerators}
use pmt.Clob.Holdings.{Trade, Position, positions}

pub record ResolvedPosition (F : Type 0) : Type 0 where
  pub position : Position F
  pub condition_id : String
  pub won : Bool
  pub payout : F

abbrev pub is_yes : String → Bool
is_yes outcome = lower outcome == "yes"

-- `numerators[0 if yes else 1]`, none where the list is too short.
unfoldable pub numerator_at : Bool → List ℕ → Option ℕ
numerator_at is_first [] = none
numerator_at true (first ∷ numerators) = some first
numerator_at false (first ∷ []) = none
numerator_at false (first ∷ second ∷ numerators) = some second

abbrev pub is_positive : ℕ → Bool
is_positive n = ltb 0 n

-- After every tenth position that raised no exception, the loop sleeps for 0.5 seconds.
unfoldable pub pause : {A : Type 0} → ℕ → Outcome A → Session → Session
pause i (failed e) s = s
pause i (returned a) s = if leb (suc i % 10) 0 then sleep 500 s else s

module _ {F : Type 0} ⦃f : Numeric F⦄ where
  abbrev pub resolved_as : Position F → Bool → ResolvedPosition F
  resolved_as p won = record {
    position = p;
    condition_id = p.market;
    won = won;
    payout = if won then p.shares else nought;
  }

  abbrev pub added : Outcome (List (ResolvedPosition F)) → List (ResolvedPosition F)
  added (failed e) = []
  added (returned resolved) = resolved

  module _ (post : String → String → ℕ → Response) where
    -- What the `try` block appends.
    unfoldable pub payout_of : Position F → Client (List (ResolvedPosition F))
    payout_of p = do
      numerators ← get_payout_numerators post p.market
      numerator ← parsed (numerator_at (is_yes p.outcome) numerators)
      pure (resolved_as p (is_positive numerator) ∷ [])

    unfoldable pub resolve : Position F → Client (List (ResolvedPosition F))
    resolve p = do
      is_resolved ← is_condition_resolved post p.market
      if is_resolved then payout_of p else pure []

    unfoldable pub resolve_loop :
        ℕ → List (Position F) → Session → List (ResolvedPosition F) × Session
    resolve_loop i [] s = ([], s)
    resolve_loop i (p ∷ ps) s =
        let (outcome, t) = resolve p s in
        let (resolved, u) = resolve_loop (suc i) ps (pause i outcome t) in
        (added outcome ++ resolved, u)

    -- The positions are those of the client with its default number of tokens.
    unfoldable pub get_resolved_positions :
        String → List Trade → Session → List (ResolvedPosition F) × Session
    get_resolved_positions funder trades s =
        let (ps, t) = positions post funder 150 trades s in resolve_loop 0 ps t

pub record Redemption (F : Type 0) : Type 0 where
  pub condition_id : String
  pub first_amount : F
  pub second_amount : F

-- The calls that have been made, and the seconds slept.
pub record Relay (F : Type 0) : Type 0 where
  pub calls : List (Redemption F)
  pub slept : ℕ

-- A call returns, or raises an exception with a text.
pub data Answer : Type 0 where
  accepted : Answer
  raised : String → Answer

abbrev pub counted : Bool → ℕ → ℕ
counted success n = if success then suc n else n

module _ {F : Type 0} ⦃f : Numeric F⦄ where
  abbrev pub redemption_of : ResolvedPosition F → Redemption F
  redemption_of pos =
      let is_first = is_yes pos.position.outcome in
      record {
        condition_id = pos.condition_id;
        first_amount = if is_first then pos.position.shares else nought;
        second_amount = if is_first then nought else pos.position.shares;
      }

  abbrev pub make : Redemption F → Relay F → Relay F
  make call r = record r { calls = r.calls ++ (call ∷ []) }

  abbrev pub wait : ℕ → Relay F → Relay F
  wait seconds r = record r { slept = r.slept + seconds }

  -- How an attempt goes on: after a rate limit with the rest of the loop.
  unfoldable pub after_attempt : ℕ → Answer → (Relay F → Bool × Relay F) → Relay F → Bool × Relay F
  after_attempt attempt accepted rest r = (true, r)
  after_attempt attempt (raised text) rest r =
      if is_rate_limit text then rest (wait (15 * suc attempt) r) else (false, r)

  module _ (redeem : Redemption F → ℕ → Answer) where
    -- The loop, with the attempts left and the number of this one.
    unfoldable pub attempts : ℕ → ℕ → Redemption F → Relay F → Bool × Relay F
    attempts zero attempt call r = (false, r)
    attempts (suc left) attempt call r =
        after_attempt attempt (redeem call (length r.calls)) (attempts left (suc attempt) call)
          (make call r)

    unfoldable pub redeem_position : Bool → ResolvedPosition F → Relay F → Bool × Relay F
    redeem_position dry_run pos r =
        if dry_run then (true, r) else attempts 3 0 (redemption_of pos) r

    -- The loop over the positions: the number of successes. It sleeps between the positions.
    unfoldable pub redeem_loop : Bool → List (ResolvedPosition F) → Relay F → ℕ × Relay F
    redeem_loop dry_run [] r = (0, r)
    redeem_loop dry_run (pos ∷ []) r =
        let (success, s) = redeem_position dry_run pos r in (counted success 0, s)
    redeem_loop dry_run (pos ∷ next ∷ ps) r =
        let (success, s) = redeem_position dry_run pos r in
        let (n, t) = redeem_loop dry_run (next ∷ ps) (if dry_run then s else wait 5 s) in
        (counted success n, t)
