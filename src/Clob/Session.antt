-- ===== src/Clob/Session.antt =====
-- What the requests of clob.py share: the answers of the server, errors, and the requests sent so far.
use Prim.Native.Nat.{ℕ, suc, ◌+◌}
use pmt.Prelude.{String, Option, some, none}

-- The "error" of a reply: its message, and its text, `str(result["error"])`.
pub record RpcError : Type 0 where
  pub message : Option String
  pub text : String

-- The object in the body of a response, with its text.
pub record Reply : Type 0 where
  pub error : Option RpcError
  pub result : Option String
  pub text : String

-- What a request to the chain gives: a RequestException, also for a status of failure or a body that
-- is no JSON, or a reply.
pub data Response : Type 0 where
  unreachable : String → Response
  replied : Reply → Response

pub data Failure : Type 0 where
  request_exception : String → Failure
  runtime_error : String → Failure
  value_error : Failure

pub data Outcome (A : Type 0) : Type 0 where
  returned : A → Outcome A
  failed : Failure → Outcome A

-- The number of requests sent to the node, and the milliseconds slept.
pub record Session : Type 0 where
  pub sent : ℕ
  pub slept : ℕ

abbrev pub request : Session → Session
request s = record s { sent = suc s.sent }

abbrev pub sleep : ℕ → Session → Session
sleep milliseconds s = record s { slept = s.slept + milliseconds }

abbrev pub Client : Type 0 → Type 0
Client A = Session → Outcome A × Session

abbrev pub and_then : {A B : Type 0} → Outcome A × Session → (A → Client B) → Outcome B × Session
and_then (returned a, s) f = f a s
and_then (failed e, s) f = (failed e, s)

infixl 5 ◌>>=◌
abbrev pub ◌>>=◌ : {A B : Type 0} → Client A → (A → Client B) → Client B
◌>>=◌ m f s = and_then (m s) f

abbrev pub pure : {A : Type 0} → A → Client A
pure a s = (returned a, s)

-- A value, or ValueError.
abbrev pub parsed : {A : Type 0} → Option A → Client A
parsed none s = (failed value_error, s)
parsed (some a) s = (returned a, s)
