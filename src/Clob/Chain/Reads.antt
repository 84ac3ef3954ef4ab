-- ===== src/Clob/Chain/Reads.antt =====
-- What the client reads where the node answers every call.
use Prim.Native.Nat.{◌^◌, ◌<◌}
use Prim.Native.String.{◌∷◌}
use pmt.Prelude.{ℕ, String, ◌≡◌, refl, none, some, ltb}
use mathlib.Core.List.{[]}
use mathlib.Core.List.{◌∷◌ as cons}
use pmt.Numeric.{Numeric}
use pmt.Clob.Hex.{int_decimal, word}
use pmt.Clob.Hex.RoundTrip.{int_hex-word}
use pmt.Clob.Session.{Response, replied, Session, returned, request}
use pmt.Clob.Rpc.{rpc_call, try_calls, round, on_reply, on_result}
use pmt.Clob.Chain.{
  ctf_contract, token_data, denominator_data, numerator_data, shares_of, read_int, token_balance,
  is_condition_resolved, read_numerators, get_payout_numerators,
}

-- A node that answers each call with the number that the contract gives, below 2 ^ 256, as a word of 64
-- digits after "0x".
pub record IsNode (post : String → String → ℕ → Response) (contract : String → String → ℕ)
    : Type 0 where
  pub bounded : (to call_data : String) → contract to call_data < 2 ^ 256
  pub answers :
      (to call_data : String) (n : ℕ)
      → (text : String) × (post to call_data n
          ≡ replied (record {
            error = none;
            result = some ("0" ∷ "x" ∷ word (contract to call_data));
            text = text;
          }))

module _ {post : String → String → ℕ → Response} {contract : String → String → ℕ}
    (node : IsNode post contract) where
  pub read_int-IsNode :
      (to call_data : String) (s : Session)
      → read_int post to call_data s ≡ (returned (contract to call_data), request s)
  unfolding read_int rpc_call try_calls round on_reply on_result
  read_int-IsNode to call_data s =
      rw ((node.answers to call_data s.sent).1)
        (rw ((int_hex-word (contract to call_data) (node.bounded to call_data)).2) refl)

  pub token_balance-IsNode :
      {F : Type 0} ⦃f : Numeric F⦄ (funder token_id : String) (token : ℕ) (s : Session)
      → int_decimal token_id ≡ some token
      → token_balance post funder token_id s ≡ (
        returned (shares_of {F = F} (contract ctf_contract (token_data funder token))),
        request s,
      )
  unfolding token_balance
  token_balance-IsNode funder token_id token s h =
      rw h (rw (read_int-IsNode ctf_contract (token_data funder token) s) refl)

  -- The two numerators of a condition, in the order of the outcomes, are those of the contract, and
  -- the condition is resolved exactly when its denominator there is positive. Each value takes
  -- one request, without a sleep.
  pub get_payout_numerators-IsNode :
      (condition_id : String) (s : Session)
      → (get_payout_numerators post condition_id s ≡ (
        returned (
            cons
              (contract ctf_contract (numerator_data condition_id 0))
              (cons (contract ctf_contract (numerator_data condition_id 1)) [])),
        request (request s),
      ))
        × (is_condition_resolved post condition_id s
            ≡ (returned (ltb 0 (contract ctf_contract (denominator_data condition_id))), request s))
  unfolding get_payout_numerators read_numerators is_condition_resolved
  get_payout_numerators-IsNode condition_id s = (
    rw (read_int-IsNode ctf_contract (numerator_data condition_id 0) s)
        (rw (read_int-IsNode ctf_contract (numerator_data condition_id 1) (request s)) refl),
    rw (read_int-IsNode ctf_contract (denominator_data condition_id) s) refl,
  )
