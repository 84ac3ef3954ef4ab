-- ===== src/Clob/Holdings/Cost.antt =====
-- What the calls of the node in `positions` cost in requests and time.
use Prim.Native.Nat.{suc, ◌+◌, ◌*◌, ◌≤◌, zero}
use pmt.Prelude.{
  ℕ, String, Bool, true, false, ◌≡◌, refl, Option, none, some, List, [], ◌∷◌, take, length, arith,
}
use pmt.Numeric.{Numeric}
use pmt.Dict.{Dict}
use pmt.Clob.Hex.{int_hex, int_decimal}
use pmt.Clob.Session.{Response, Outcome, returned, failed, Session, Client, and_then, parsed}
use pmt.Clob.Rpc.{rpc_call}
use pmt.Clob.Rpc.Bounds.{rpc_call-IsBounded}
use pmt.Clob.Chain.{ctf_contract, token_data, shares_of, read_int, token_balance}
use pmt.Clob.Holdings.{Trade, Meta, meta_loop, throttle, balance_loop, positions}
use pmt.Clob.Holdings.Distinct.{meta_loop-take}

-- The session after at most so many tokens have been read.
record IsWithin (n : ℕ) (s t : Session) : Type 0 where
  sent : t.sent ≤ s.sent + n * 3
  slept : t.slept ≤ s.slept + n * 12300

-- What follows a request and sends none.
quiet_and_then :
    {A B : Type 0} (r : Outcome A × Session) (k : A → Client B)
    → ((a : A) (t : Session) → (k a t).1 ≡ t)
    → (and_then r k).1 ≡ r.1
quiet_and_then (returned a, t) k h = h a t
quiet_and_then (failed e, t) k h = refl

parsed_quiet : {A : Type 0} (o : Option A) (t : Session) → (parsed o t).1 ≡ t
parsed_quiet none t = refl
parsed_quiet (some a) t = refl

length-take : {A : Type 0} (n : ℕ) (xs : List A) → length (take n xs) ≤ n
length-take zero xs = omega arith
length-take (suc n) [] = omega arith
length-take (suc n) (x ∷ xs) = omega (arith, length-take n xs)

throttle-slept :
    (first : Bool) (s : Session)
    → ((throttle first s).sent ≡ s.sent) × ((throttle first s).slept ≤ s.slept + 300)
throttle-slept true s = (refl, omega arith)
throttle-slept false s = (refl, omega arith)

module _ (post : String → String → ℕ → Response) where
  read_int_session :
      (to call_data : String) (s : Session)
      → (read_int post to call_data s).1 ≡ (rpc_call post to call_data 3 s).1
  unfolding read_int
  read_int_session to call_data s =
      quiet_and_then (rpc_call post to call_data 3 s) _ (λ a t. parsed_quiet (int_hex a) t)

module _ (F : Type 0) ⦃f : Numeric F⦄ (post : String → String → ℕ → Response)
    (funder : String) where
  balance-IsWithin :
      (token_id : String) (number : Option ℕ) (s : Session)
      → int_decimal token_id ≡ number
      → ((token_balance post {F = F} funder token_id s).1.sent ≤ s.sent + 3)
        × ((token_balance post {F = F} funder token_id s).1.slept ≤ s.slept + 12000)
  unfolding token_balance
  balance-IsWithin token_id none s h = rw h (omega arith)
  balance-IsWithin token_id (some token) s h =
      let call_data = token_data funder token in
      rw h (
        rw
          (
            quiet_and_then (read_int post ctf_contract call_data s)
                (λ balance t. (returned (shares_of {F = F} balance), t)) (λ a t. refl),
            read_int_session post ctf_contract call_data s,
          )
          (rpc_call-IsBounded post ctf_contract call_data s))

  balance_loop-IsWithin :
      (first : Bool) (tokens : Dict Meta) (s : Session)
      → IsWithin (length tokens) s (balance_loop {F = F} post funder first tokens s).1
  unfolding balance_loop
  balance_loop-IsWithin first [] s = record { sent = omega arith; slept = omega arith }
  balance_loop-IsWithin first ((token_id, m) ∷ tokens) s =
      let t = throttle first s in
      let one = balance-IsWithin token_id (int_decimal token_id) t refl in
      let rest =
        balance_loop-IsWithin false tokens (token_balance post {F = F} funder token_id t).1 in
      let slept = throttle-slept first s in
      record { sent = omega (arith, rest.sent); slept = omega (arith, rest.slept) }

  -- Once the trades are there, and whatever the node answers, `positions` sends the node at most three
  -- requests for each of `max_tokens` tokens, and sleeps for at most 12.3 seconds for each of them. The
  -- requests for the trades, and those to authenticate at the proxy, are not counted.
  pub positions-IsBounded :
      (max_tokens : ℕ) (trades : List Trade) (s : Session)
      → ((positions {F = F} post funder max_tokens trades s).1.sent ≤ s.sent + max_tokens * 3)
        × ((positions {F = F} post funder max_tokens trades s).1.slept
            ≤ s.slept + max_tokens * 12300)
  unfolding positions
  positions-IsBounded max_tokens trades s =
      let tokens = meta_loop max_tokens trades [] in
      let within = balance_loop-IsWithin true tokens s in
      let few : length tokens ≤ max_tokens =
        rw (meta_loop-take max_tokens trades) (length-take max_tokens _) in
      (omega (arith, within.sent), omega (arith, within.slept))
