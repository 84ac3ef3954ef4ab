-- ===== src/Clob/Rpc/Bounds.antt =====
-- How many requests a call sends, and how long it sleeps.
use Prim.Native.Nat.{zero, suc, ◌+◌, ◌*◌, ◌<◌, ◌≤◌}
use pmt.Prelude.{ℕ, String, Option, none, some, arith}
use pmt.Clob.Session.{Response, Failure, Outcome, Session, request, sleep}
use pmt.Clob.Rpc.{Round, next_round, try_calls, rpc_call}
use pmt.Clob.Rpc.Attempts.{
  IsRound, settled, retried, round-IsRound, IsServed, decided, exhausted, try_calls-IsServed,
}

-- The milliseconds that `left` rounds may sleep, from the round `attempt`.
budget : ℕ → ℕ → ℕ
budget zero attempt = 0
budget (suc left) attempt = (2 + attempt * 2) * 1000 + budget left (suc attempt)

module _ (post : String → String → ℕ → Response) (to call_data : String) where
  next-slept :
      {attempt n : ℕ} (left : ℕ) (s : Session)
      (rest : Option Failure → Session → Outcome String × Session) {r : Round}
      → attempt < 3
      → IsRound attempt (post to call_data n) r
      → ((e : Failure) (t : Session)
          → (rest (some e) t).1.slept ≤ t.slept + budget left (suc attempt))
      → (next_round r rest s).1.slept ≤ s.slept + budget (suc left) attempt
  unfolding budget
  next-slept left s rest h (settled q) ih = omega arith
  next-slept left s rest h (retried {e} {seconds} q b) ih =
      omega (arith, ih e (sleep (seconds * 1000) s), b h)

  try_calls-slept :
      (left attempt : ℕ) (last : Option Failure) (s : Session)
      → attempt + left ≤ 3
      → (try_calls post to call_data left attempt last s).1.slept ≤ s.slept + budget left attempt
  unfolding try_calls budget
  try_calls-slept zero attempt last s h = omega arith
  try_calls-slept (suc left) attempt last s h =
      next-slept left (request s) (try_calls post to call_data left (suc attempt)) (omega arith)
        (round-IsRound attempt (post to call_data s.sent))
        (λ e t. try_calls-slept left (suc attempt) (some e) t (omega arith))

  served_sent :
      {n left : ℕ} {last : Option Failure} {o : Outcome String} {s : Session}
      → IsServed (post to call_data) n left last o s
      → s.sent ≤ n + left
  served_sent (decided k h all q sent) = omega arith
  served_sent (exhausted all none_left some_left sent) = omega arith

  -- A call of three rounds, the default, sends at most three requests and sleeps for at most twelve
  -- seconds, whatever the server answers.
  pub rpc_call-IsBounded :
      (s : Session)
      → ((rpc_call post to call_data 3 s).1.sent ≤ s.sent + 3)
        × ((rpc_call post to call_data 3 s).1.slept ≤ s.slept + 12000)
  unfolding rpc_call budget
  rpc_call-IsBounded s = (
    served_sent (try_calls-IsServed post to call_data 3 0 none s),
    try_calls-slept 3 0 none s (omega arith),
  )
