-- ===== src/Cognito.antt =====
-- pmtrader/polymarket/cognito.py: the tokens for the proxy, which are kept until they expire. The
-- answers of the service and the clock are parameters: the response to the n-th request, and the n-th
-- reading of the clock, in microseconds.
pub mod Cache
use Prim.Native.Nat.{ℕ, suc, ◌+◌, ◌-◌, ◌*◌}
use Prim.Native.String.{◌++◌}
use text.Mathlib.Text.{◌==◌}
use pmt.Prelude.{
  String, Bool, true, false, Option, none, some, if◌then◌else◌, ltb, ◌||◌, ◌>>=◌, List, [], ◌∷◌,
}

pub record CognitoToken : Type 0 where
  pub access_token : String
  pub id_token : String
  pub refresh_token : Option String
  pub expires_at : ℕ

-- The credentials of a client.
pub record Credentials : Type 0 where
  pub client_id : String
  pub username : String
  pub password : String
  pub region : String

pub data AuthRequest : Type 0 where
  user_password : Credentials → AuthRequest
  refresh : Credentials → String → AuthRequest

-- The "AuthenticationResult" of a response, empty where the key is missing.
pub record AuthenticationResult : Type 0 where
  pub access_token : Option String
  pub id_token : Option String
  pub refresh_token : Option String
  pub expires_in : Option ℕ

-- A response, a ClientError with its code and message, or another exception.
pub data AuthResponse : Type 0 where
  answered : AuthenticationResult → AuthResponse
  client_error : Option String → Option String → String → AuthResponse
  unreached : AuthResponse

pub data Failure : Type 0 where
  authentication_error : String → Failure
  other_error : Failure

pub data Result (A : Type 0) : Type 0 where
  ok : A → Result A
  raised : Failure → Result A

-- `self._token`, the number of requests sent and of readings of the clock.
pub record CognitoAuth : Type 0 where
  pub token : Option CognitoToken
  pub requests : ℕ
  pub readings : ℕ

abbrev pub second : ℕ
second = 1000000

-- `self._refresh_buffer`
abbrev pub refresh_buffer : ℕ
refresh_buffer = 300 * second

abbrev pub default_to : {A : Type 0} → A → Option A → A
default_to default none = default
default_to default (some a) = a

-- A text that is there and not empty.
abbrev pub given : Option String → Option String
given none = none
given (some text) = if text == "" then none else some text

abbrev pub sent : CognitoAuth → CognitoAuth
sent s = record s { requests = suc s.requests }

abbrev pub clock_read : CognitoAuth → CognitoAuth
clock_read s = record s { readings = suc s.readings }

abbrev pub auth_failure : Option String → Option String → String → Failure
auth_failure error_code error_msg text = authentication_error (
    "Cognito auth failed: "
    ++ default_to "Unknown" error_code
    ++ " - "
    ++ default_to text error_msg)

-- The token of a result at a time, none where it has no access token or no id token.
unfoldable pub token_of : AuthenticationResult → Option String → ℕ → Option CognitoToken
token_of result refresh_token now = do
  access_token ← given result.access_token
  id_token ← given result.id_token
  some (record {
    access_token = access_token;
    id_token = id_token;
    refresh_token = refresh_token;
    expires_at = now + default_to 3600 result.expires_in * second;
  })

unfoldable pub is_valid_at : Option CognitoToken → ℕ → Bool
is_valid_at none now = false
is_valid_at (some token) now = ltb now (token.expires_at - refresh_buffer)

-- What `_authenticate` does with a token that it could read, or not.
unfoldable pub authenticated : Option CognitoToken → CognitoAuth → Result CognitoToken × CognitoAuth
authenticated none s = (raised (authentication_error "Cognito response missing tokens"), s)
authenticated (some token) s = (ok token, clock_read s)

abbrev pub chosen : String → CognitoToken → String
chosen token_type token = if token_type == "id" then token.id_token else token.access_token

-- The new token is put in the cache.
unfoldable pub store : String → Result CognitoToken × CognitoAuth → Result String × CognitoAuth
store token_type (ok token, s) = (ok (chosen token_type token), record s { token = some token })
store token_type (raised e, s) = (raised e, s)

-- The clock is read only where there is a token.
abbrev pub checked : Option CognitoToken → CognitoAuth → CognitoAuth
checked none s = s
checked (some token) s = clock_read s

unfoldable pub header_of : Result String × CognitoAuth → Result (String × String) × CognitoAuth
header_of (ok token, s) = (ok ("Authorization", "Bearer " ++ token), s)
header_of (raised e, s) = (raised e, s)

module _ (initiate_auth : AuthRequest → ℕ → AuthResponse) (clock : ℕ → ℕ) (me : Credentials) where
  unfoldable pub on_auth : AuthResponse → CognitoAuth → Result CognitoToken × CognitoAuth
  on_auth (answered result) s =
      authenticated (token_of result result.refresh_token (clock s.readings)) s
  on_auth (client_error error_code error_msg text) s =
      (raised (auth_failure error_code error_msg text), s)
  on_auth unreached s = (raised other_error, s)

  unfoldable pub authenticate : CognitoAuth → Result CognitoToken × CognitoAuth
  authenticate s = on_auth (initiate_auth (user_password me) s.requests) (sent s)

  -- After a refresh, a token that could not be read leads to a full authentication.
  unfoldable pub refreshed : Option CognitoToken → CognitoAuth → Result CognitoToken × CognitoAuth
  refreshed none s = authenticate s
  refreshed (some token) s = (ok token, clock_read s)

  unfoldable pub on_refresh :
      String → AuthResponse → CognitoAuth → Result CognitoToken × CognitoAuth
  on_refresh token (answered result) s =
      refreshed (token_of result (some token) (clock s.readings)) s
  on_refresh token (client_error error_code error_msg text) s = authenticate s
  on_refresh token unreached s = (raised other_error, s)

  -- `_refresh_token`, with the refresh token, if there is one.
  unfoldable pub refresh_token : Option String → CognitoAuth → Result CognitoToken × CognitoAuth
  refresh_token none s = authenticate s
  refresh_token (some token) s =
      on_refresh token (initiate_auth (refresh me token) s.requests) (sent s)

  unfoldable pub token_at :
      String → Option CognitoToken → ℕ → CognitoAuth → Result String × CognitoAuth
  token_at token_type none now s = store token_type (authenticate s)
  token_at token_type (some token) now s =
      if is_valid_at (some token) now
      then (ok (chosen token_type token), s)
      else store token_type (refresh_token (given token.refresh_token) s)

  unfoldable pub get_token : String → CognitoAuth → Result String × CognitoAuth
  get_token token_type s = token_at token_type s.token (clock s.readings) (checked s.token s)

  unfoldable pub get_auth_header : String → CognitoAuth → Result (String × String) × CognitoAuth
  get_auth_header token_type s = header_of (get_token token_type s)

unfoldable pub clear_cache : CognitoAuth → CognitoAuth
clear_cache s = record s { token = none }

-- `value or os.environ.get(...)`
abbrev pub or_env : Option String → Option String → String → String
or_env value env default = elim (given value) [ none ↦ default_to default env | some text ↦ text ]

-- The constructor, with the variables of the environment in the order of the arguments; none where it
-- raises ValueError, as in `create_cognito_auth`.
unfoldable pub new_cognito_auth :
    Option String
    → Option String
    → Option String
    → Option String
    → (String → Option String)
    → Option Credentials
new_cognito_auth client_id username password region environ = do
  client_id ← given (some (or_env client_id (environ "PMPROXY_COGNITO_CLIENT_ID") ""))
  username ← given (some (or_env username (environ "PMPROXY_USERNAME") ""))
  password ← given (some (or_env password (environ "PMPROXY_PASSWORD") ""))
  some (record {
    client_id = client_id;
    username = username;
    password = password;
    region = or_env region (environ "PMPROXY_COGNITO_REGION") "us-east-1";
  })

unfoldable pub create_cognito_auth : (String → Option String) → Option Credentials
unfolding new_cognito_auth
create_cognito_auth environ = new_cognito_auth none none none none environ
