-- ===== src/Clob/Account.antt =====
-- The account of an authenticated client of clob.py: `create_authenticated_clob`, the constructor of
-- `AuthenticatedClob`, and `_rpc_call` with the headers of its requests. The client of py_clob_client
-- that the constructor makes is its arguments. `int_of` is Python's `int` of a text, none where it
-- raises.
pub mod Guarded
use Prim.Native.Nat.{ℕ}
use Prim.Native.String.{String}
use text.Mathlib.Text.{◌==◌}
use pmt.Prelude.{Bool, true, false, Option, none, some, ◌||◌, not, if◌then◌else◌}
use pmt.Clob.Session.{Response, Outcome, Session}
use pmt.Clob.Rpc.{rpc_call}
use pmt.Clob.Orders.{get_clob_host, get_chain_host}
use pmt.Cognito.{
  Credentials, CognitoAuth, AuthRequest, AuthResponse, Failure, Result, ok, raised, default_to,
  given, get_auth_header, create_cognito_auth,
}

-- `ClobClient(...)`, on the chain 137.
pub record ClobClient (I : Type 0) : Type 0 where
  pub host : String
  pub key : String
  pub signature_type : I
  pub funder : String

pub record AuthenticatedClob (I : Type 0) : Type 0 where
  pub client : ClobClient I
  pub rpc : String
  pub cognito_auth : Option Credentials
  pub is_proxy : Bool

-- What the creation of a client gives: the client, None, or a ValueError.
pub data Created (I : Type 0) : Type 0 where
  created : AuthenticatedClob I → Created I
  missing : Created I
  value_error : Created I

-- `get_proxy_url`
abbrev pub get_proxy_url : (String → Option String) → String
get_proxy_url environ = default_to "" (environ "PMPROXY_URL")

-- A request for a call of the chain: where it goes to, and its header, which may be missing.
pub record Posted : Type 0 where
  pub url : String
  pub authorization : Option (String × String)

-- How `_rpc_call` ends: without a token, or with the outcome of the requests.
pub data Call : Type 0 where
  unauthorized : Failure → Call
  called : Outcome String → Call

-- The credentials are looked for only where the proxy is asked for.
unfoldable pub auth_for : Bool → (String → Option String) → Option Credentials
auth_for proxy environ = if proxy then create_cognito_auth environ else none

module _ {I : Type 0} where
  unfoldable pub new_clob :
      String → String → I → Bool → Option Credentials → String → AuthenticatedClob I
  new_clob private_key funder_address signature_type proxy cognito_auth proxy_url = record {
    client = record {
      host = get_clob_host proxy proxy_url;
      key = private_key;
      signature_type = signature_type;
      funder = funder_address;
    };
    rpc = get_chain_host proxy proxy_url;
    cognito_auth = cognito_auth;
    is_proxy = proxy || not (proxy_url == "");
  }

  unfoldable pub with_keys :
      Option String → Option String → I → Bool → (String → Option String) → Created I
  with_keys none funder_address signature_type proxy environ = missing
  with_keys (some key) none signature_type proxy environ = missing
  with_keys (some key) (some funder_address) signature_type proxy environ = created (
      new_clob key funder_address signature_type proxy (auth_for proxy environ)
        (get_proxy_url environ))

  unfoldable pub with_type : Option I → Bool → (String → Option String) → Created I
  with_type none proxy environ = value_error
  with_type (some signature_type) proxy environ =
      with_keys (given (environ "PM_PRIVATE_KEY")) (given (environ "PM_FUNDER_ADDRESS"))
        signature_type proxy environ

  unfoldable pub create_authenticated_clob :
      (String → Option I) → Bool → (String → Option String) → Created I
  create_authenticated_clob int_of proxy environ =
      with_type (int_of (default_to "1" (environ "PM_SIGNATURE_TYPE"))) proxy environ

abbrev pub finished : CognitoAuth → Outcome String × Session → Call × (CognitoAuth × Session)
finished auth (outcome, s) = (called outcome, (auth, s))

module _ (initiate_auth : AuthRequest → ℕ → AuthResponse) (clock : ℕ → ℕ) where
  abbrev pub header :
      Result (String × String) × CognitoAuth → Result (Option (String × String)) × CognitoAuth
  header (ok h, auth) = (ok (some h), auth)
  header (raised e, auth) = (raised e, auth)

  unfoldable pub headers_for :
      Bool → Option Credentials → CognitoAuth → Result (Option (String × String)) × CognitoAuth
  headers_for false me auth = (ok none, auth)
  headers_for true none auth = (ok none, auth)
  headers_for true (some me) auth = header (get_auth_header initiate_auth clock me "access" auth)

  unfoldable pub get_headers :
      {I : Type 0}
      → AuthenticatedClob I
      → CognitoAuth
      → Result (Option (String × String)) × CognitoAuth
  get_headers clob auth = headers_for clob.is_proxy clob.cognito_auth auth

  -- The token is asked for once, before the rounds of the call.
  module _ (post : Posted → String → String → ℕ → Response) where
    unfoldable pub call_with :
        {I : Type 0}
        → AuthenticatedClob I
        → String
        → String
        → ℕ
        → Result (Option (String × String)) × CognitoAuth
        → Session
        → Call × (CognitoAuth × Session)
    call_with clob to call_data retries (raised e, auth) s = (unauthorized e, (auth, s))
    call_with clob to call_data retries (ok authorization, auth) s =
        let posted : Posted = record { url = clob.rpc; authorization = authorization } in
        finished auth (rpc_call (post posted) to call_data retries s)

    unfoldable pub authorized_call :
        {I : Type 0}
        → AuthenticatedClob I
        → String
        → String
        → ℕ
        → CognitoAuth
        → Session
        → Call × (CognitoAuth × Session)
    authorized_call clob to call_data retries auth s =
        call_with clob to call_data retries (get_headers clob auth) s
