-- ===== src/Clob/Rpc/Attempts.antt =====
-- How often a call is made, and with what result.
use Prim.Native.Nat.{zero, suc, ◌+◌, ◌*◌, ◌^◌, ◌<◌, ◌≤◌}
use Prim.Native.String.{◌++◌}
use mathlib.Core.Path.{subst}
use pmt.Prelude.{ℕ, String, ◌≡◌, refl, true, false, Option, none, some, inl, inr, arith, Bool-cases}
use pmt.Clob.Session.{
  Reply, RpcError, Response, unreachable, replied, Failure, request_exception, runtime_error,
  Outcome, returned, failed, Session, request, sleep,
}
use pmt.Clob.Rpc.{
  Round, ends, again, is_rate_limit, error_message, last_or, round, on_reply, on_result, on_error,
  next_round, try_calls, rpc_call,
}

-- A response that settles the call, with its outcome.
pub data Settles : Response → Outcome String → Type 0 where
  result :
      {reply : Reply} {r : String}
      → reply.error ≡ none
      → reply.result ≡ some r
      → Settles (replied reply) (returned r)
  no_result :
      {reply : Reply}
      → reply.error ≡ none
      → reply.result ≡ none
      → Settles
          (replied reply)
          (failed (runtime_error ("RPC response missing 'result': " ++ reply.text)))
  refused :
      {reply : Reply} {e : RpcError}
      → reply.error ≡ some e
      → is_rate_limit (error_message e) ≡ false
      → Settles (replied reply) (failed (runtime_error ("RPC error: " ++ error_message e)))

-- A response after which the call is made again, with the error that is kept.
pub data Retries : Response → Failure → Type 0 where
  unreached : {text : String} → Retries (unreachable text) (request_exception text)
  limited :
      {reply : Reply} {e : RpcError}
      → reply.error ≡ some e
      → is_rate_limit (error_message e) ≡ true
      → Retries (replied reply) (runtime_error ("RPC rate limited: " ++ error_message e))

-- What a round is, with a bound on the seconds of its sleep in the first three rounds.
pub data IsRound (attempt : ℕ) (r : Response) : Round → Type 0 where
  settled : {o : Outcome String} → Settles r o → IsRound attempt r (ends o)
  retried :
      {e : Failure} {seconds : ℕ}
      → Retries r e
      → (attempt < 3 → seconds ≤ 2 + attempt * 2)
      → IsRound attempt r (again e seconds)

power_bound : (attempt : ℕ) → attempt < 3 → 2 ^ attempt ≤ 2 + attempt * 2
power_bound zero h = omega arith
power_bound (suc zero) h = omega arith
power_bound (suc (suc zero)) h = omega arith
power_bound (suc (suc (suc n))) h = absurd (omega arith)

result-IsRound :
    (attempt : ℕ) (reply : Reply) (r : Option String)
    → reply.error ≡ none
    → reply.result ≡ r
    → IsRound attempt (replied reply) (on_result reply r)
unfolding on_result
result-IsRound attempt reply none h k = settled (no_result h k)
result-IsRound attempt reply (some r) h k = settled (result h k)

reply-IsRound :
    (attempt : ℕ) (reply : Reply) (error : Option RpcError)
    → reply.error ≡ error
    → IsRound attempt (replied reply) (on_reply attempt reply error)
unfolding on_reply on_error
reply-IsRound attempt reply none h = result-IsRound attempt reply reply.result h refl
reply-IsRound attempt reply (some e) h = elim (Bool-cases (is_rate_limit (error_message e))) [
  | inl l ↦ rw l (retried (limited h l) (λ b. omega arith))
  | inr l ↦ rw l (settled (refused h l))
]

pub round-IsRound : (attempt : ℕ) (r : Response) → IsRound attempt r (round attempt r)
unfolding round
round-IsRound attempt (unreachable text) = retried unreached (power_bound attempt)
round-IsRound attempt (replied reply) = reply-IsRound attempt reply reply.error refl

-- How a call ends that may still be made `left` times, the next one being the n-th request.
pub data IsServed (post : ℕ → Response) (n left : ℕ) (last : Option Failure)
    : Outcome String → Session → Type 0 where
  decided :
      {o : Outcome String} {s : Session} (k : ℕ)
      → k < left
      → ((j : ℕ) → j < k → (e : Failure) × Retries (post (n + j)) e)
      → Settles (post (n + k)) o
      → s.sent ≡ n + k + 1
      → IsServed post n left last o s
  exhausted :
      {e : Failure} {s : Session}
      → ((j : ℕ) → j < left → (e : Failure) × Retries (post (n + j)) e)
      → (left ≡ 0 → e ≡ last_or last)
      → (0 < left → (k : ℕ) × (left ≡ k + 1) × Retries (post (n + k)) e)
      → s.sent ≡ n + left
      → IsServed post n left last (failed e) s

module _ (post : ℕ → Response) where
  retried_at : (m n : ℕ) {e : Failure} → m ≡ n → Retries (post m) e → Retries (post n) e
  retried_at m n {e} h r = subst (λ k. Retries (post k) e) h r

  settled_at : (m n : ℕ) {o : Outcome String} → m ≡ n → Settles (post m) o → Settles (post n) o
  settled_at m n {o} h r = subst (λ k. Settles (post k) o) h r

  first_or_later :
      (n j : ℕ) {e : Failure}
      → Retries (post n) e
      → ((i : ℕ) → suc i ≡ j → (e : Failure) × Retries (post (suc n + i)) e)
      → (e : Failure) × Retries (post (n + j)) e
  first_or_later n zero {e} r later = (e, retried_at n (n + 0) (omega arith) r)
  first_or_later n (suc j) r later =
      let (e, q) = later j refl in (e, retried_at (suc n + j) (n + suc j) (omega arith) q)

  -- A call that is made again, and what follows.
  retried-IsServed :
      {n left : ℕ} {last : Option Failure} {e : Failure} {o : Outcome String} {s : Session}
      → Retries (post n) e
      → IsServed post (suc n) left (some e) o s
      → IsServed post n (suc left) last o s
  retried-IsServed {n} r (decided k h all q sent) =
      decided (suc k) (omega arith) (λ j b. first_or_later n j r (λ i g. all i (omega arith)))
        (settled_at (suc n + k) (n + suc k) (omega arith) q) (omega arith)
  retried-IsServed {n} {left = zero} {e} r (exhausted all none_left some_left sent) =
      exhausted (λ j b. first_or_later n j r (λ i g. all i (omega arith)))
        (λ g. absurd (omega arith))
        (λ g. (0, refl, retried_at n (n + 0) (omega arith) (rw (none_left refl) r))) (omega arith)
  retried-IsServed {n} {left = suc left} r (exhausted all none_left some_left sent) =
      exhausted (λ j b. first_or_later n j r (λ i g. all i (omega arith)))
        (λ g. absurd (omega arith))
        (λ g.
          let (k, h, q) = some_left (omega arith) in
          (suc k, omega arith, retried_at (suc n + k) (n + suc k) (omega arith) q))
        (omega arith)

module _ (post : String → String → ℕ → Response) (to call_data : String) where
  next-IsServed :
      {attempt left n : ℕ} {last : Option Failure} (s : Session)
      (rest : Option Failure → Session → Outcome String × Session) {r : Round}
      → s.sent ≡ suc n
      → IsRound attempt (post to call_data n) r
      → ((e : Failure) (t : Session)
          → t.sent ≡ suc n
          → IsServed
              (post to call_data)
              (suc n)
              left
              (some e)
              (rest (some e) t).0
              (rest (some e) t).1)
      → IsServed
          (post to call_data)
          n
          (suc left)
          last
          (next_round r rest s).0
          (next_round r rest s).1
  next-IsServed {n} s rest h (settled q) ih =
      decided 0 (omega arith) (λ j b. absurd (omega arith))
        (settled_at (post to call_data) n (n + 0) (omega arith) q) (omega arith)
  next-IsServed s rest h (retried {e} {seconds} q b) ih =
      retried-IsServed (post to call_data) q (ih e (sleep (seconds * 1000) s) h)

  pub try_calls-IsServed :
      (left attempt : ℕ) (last : Option Failure) (s : Session)
      → IsServed
          (post to call_data)
          s.sent
          left
          last
          (try_calls post to call_data left attempt last s).0
          (try_calls post to call_data left attempt last s).1
  unfolding try_calls
  try_calls-IsServed zero attempt last s =
      exhausted (λ j b. absurd (omega arith)) (λ e. refl) (λ b. absurd (omega arith)) (omega arith)
  try_calls-IsServed (suc left) attempt last s =
      next-IsServed (request s) (try_calls post to call_data left (suc attempt)) refl
        (round-IsRound attempt (post to call_data s.sent))
        (λ e t g.
          subst
            (λ n.
              IsServed (post to call_data) n left (some e)
                (try_calls post to call_data left (suc attempt) (some e) t).0
                (try_calls post to call_data left (suc attempt) (some e) t).1)
            g (try_calls-IsServed left (suc attempt) (some e) t))

  -- A call of `retries` rounds either ends with the first response that is no reason to try again,
  -- the (k + 1)-th after k that are, and with the outcome that this response gives; or all
  -- `retries` responses are reasons to try again, and it fails with the error of the last one. Each
  -- round sends one request.
  pub rpc_call-IsServed :
      (retries : ℕ) (s : Session)
      → IsServed
          (post to call_data)
          s.sent
          retries
          none
          (rpc_call post to call_data retries s).0
          (rpc_call post to call_data retries s).1
  unfolding rpc_call
  rpc_call-IsServed retries s = try_calls-IsServed retries 0 none s
