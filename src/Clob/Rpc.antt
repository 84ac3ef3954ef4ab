-- ===== src/Clob/Rpc.antt =====
-- `_rpc_call` of clob.py: a request that is made again where it may succeed later.
pub mod Attempts
pub mod Bounds
use Prim.Native.Nat.{ℕ, zero, suc, ◌+◌, ◌*◌, ◌^◌}
use Prim.Native.String.{String, ◌++◌}
use pmt.Prelude.{Bool, true, false, Option, none, some, if◌then◌else◌, ◌||◌}
use pmt.Strategies.Words.{lower, contains}
use pmt.Clob.Session.{
  RpcError, Reply, Response, unreachable, replied, Failure, request_exception, runtime_error,
  Outcome, returned, failed, Session, request, sleep, Client,
}

-- `result["error"].get("message", str(result["error"]))`
abbrev pub text_or : String → Option String → String
text_or default none = default
text_or default (some text) = text

abbrev pub error_message : RpcError → String
error_message e = text_or e.text e.message

-- The test for a message of rate limiting.
unfoldable pub is_rate_limit : String → Bool
is_rate_limit message = contains (lower message) "rate limit" || contains (lower message) "too many"

-- How a round of the loop ends: with a result or an exception, or with an error that is kept and a
-- sleep of some seconds before the next round.
pub data Round : Type 0 where
  ends : Outcome String → Round
  again : Failure → ℕ → Round

unfoldable pub on_error : ℕ → String → Round
on_error attempt message =
    if is_rate_limit message
    then again (runtime_error ("RPC rate limited: " ++ message)) (2 + attempt * 2)
    else ends (failed (runtime_error ("RPC error: " ++ message)))

unfoldable pub on_result : Reply → Option String → Round
on_result reply none =
    ends (failed (runtime_error ("RPC response missing 'result': " ++ reply.text)))
on_result reply (some result) = ends (returned result)

unfoldable pub on_reply : ℕ → Reply → Option RpcError → Round
on_reply attempt reply none = on_result reply reply.result
on_reply attempt reply (some e) = on_error attempt (error_message e)

unfoldable pub round : ℕ → Response → Round
round attempt (unreachable text) = again (request_exception text) (2 ^ attempt)
round attempt (replied reply) = on_reply attempt reply reply.error

-- `last_error or RuntimeError(...)`
abbrev pub last_or : Option Failure → Failure
last_or none = runtime_error "RPC call failed after retries"
last_or (some e) = e

abbrev pub next_round :
    Round → (Option Failure → Client String) → Session → Outcome String × Session
next_round (ends outcome) rest s = (outcome, s)
next_round (again e seconds) rest s = rest (some e) (sleep (seconds * 1000) s)

-- `post to data n` is the response to the n-th request of the session, a call of `to` with `data`.
module _ (post : String → String → ℕ → Response) (to call_data : String) where
  -- The loop, with the rounds left, the number of this one and the last error.
  unfoldable pub try_calls : ℕ → ℕ → Option Failure → Client String
  try_calls zero attempt last_error s = (failed (last_or last_error), s)
  try_calls (suc left) attempt last_error s =
      next_round (round attempt (post to call_data s.sent)) (try_calls left (suc attempt))
        (request s)

  unfoldable pub rpc_call : ℕ → Client String
  rpc_call retries = try_calls retries 0 none
