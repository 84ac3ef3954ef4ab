-- ===== src/Clob/Account/Guarded.antt =====
-- To which host the token of the proxy is sent.
use Prim.Native.Nat.{ℕ}
use Prim.Native.String.{String, ◌++◌}
use text.Mathlib.Text.{◌==◌}
use mathlib.Core.Path.{subst}
use pmt.Prelude.{◌≡◌, refl, ◌∙◌, sym, Bool, true, false, Option, none, some}
use pmt.Clob.Session.{Response, Session}
use pmt.Clob.Rpc.{rpc_call}
use pmt.Clob.Orders.{host_of, get_chain_host, rstrip_slash}
use pmt.Cognito.{
  Credentials, CognitoAuth, AuthRequest, AuthResponse, Failure, Result, ok, raised, default_to,
  given, get_auth_header, create_cognito_auth,
}
use pmt.Clob.Account.{
  AuthenticatedClob, Created, created, missing, value_error, get_proxy_url, Posted, Call,
  unauthorized, new_clob, auth_for, with_keys, with_type, create_authenticated_clob, finished,
  header, headers_for, get_headers, call_with, authorized_call,
}

-- Where a new client calls the chain, and which credentials it has.
record IsBuilt {I : Type 0} (proxy : Bool) (environ : String → Option String)
    (clob : AuthenticatedClob I) : Type 0 where
  rpc_host : clob.rpc ≡ get_chain_host proxy (get_proxy_url environ)
  credentials : clob.cognito_auth ≡ auth_for proxy environ

IfCreated : {I : Type 0} → (AuthenticatedClob I → Type 0) → Created I → Type 0
IfCreated P (created clob) = P clob
IfCreated P missing = Unit
IfCreated P value_error = Unit

module _ {I : Type 0} (proxy : Bool) (environ : String → Option String) where
  with_keys-IsBuilt :
      (key funder_address : Option String) (signature_type : I)
      → IfCreated
          (IsBuilt proxy environ)
          (with_keys key funder_address signature_type proxy environ)
  unfolding with_keys new_clob IfCreated
  with_keys-IsBuilt none funder_address signature_type = tt
  with_keys-IsBuilt (some key) none signature_type = tt
  with_keys-IsBuilt (some key) (some funder_address) signature_type = record {
    rpc_host = refl;
    credentials = refl;
  }

  with_type-IsBuilt : (t : Option I) → IfCreated (IsBuilt proxy environ) (with_type t proxy environ)
  unfolding with_type IfCreated
  with_type-IsBuilt none = tt
  with_type-IsBuilt (some signature_type) =
      with_keys-IsBuilt (given (environ "PM_PRIVATE_KEY")) (given (environ "PM_FUNDER_ADDRESS"))
        signature_type

  create_authenticated_clob-IsBuilt :
      (int_of : String → Option I) {clob : AuthenticatedClob I}
      → create_authenticated_clob int_of proxy environ ≡ created clob
      → IsBuilt proxy environ clob
  unfolding create_authenticated_clob IfCreated
  create_authenticated_clob-IsBuilt int_of h =
      subst (IfCreated (IsBuilt proxy environ)) h
        (with_type-IsBuilt (int_of (default_to "1" (environ "PM_SIGNATURE_TYPE"))))

module _ {I : Type 0} (initiate_auth : AuthRequest → ℕ → AuthResponse) (clock : ℕ → ℕ)
    (post : Posted → String → String → ℕ → Response) (int_of : String → Option I) (proxy : Bool)
    (environ : String → Option String) (clob : AuthenticatedClob I) (to call_data : String)
    (retries : ℕ) (auth : CognitoAuth) (s : Session) where
  -- The requests of a call of the client that have a header.
  abbrev pub sent_with : Option (String × String) → CognitoAuth → Call × (CognitoAuth × Session)
  sent_with authorization after = finished after (
      rpc_call (post (record { url = clob.rpc; authorization = authorization })) to call_data
        retries s)

  -- How a call ends, by the token that it asked for.
  pub data IsGuarded : Call × (CognitoAuth × Session) → Type 0 where
    plain : IsGuarded (sent_with none auth)
    refused :
        (me : Credentials) (e : Failure) (after : CognitoAuth)
        → create_cognito_auth environ ≡ some me
        → get_auth_header initiate_auth clock me "access" auth ≡ (raised e, after)
        → IsGuarded (unauthorized e, (after, s))
    proxied :
        (me : Credentials) (h : String × String) (after : CognitoAuth)
        → proxy ≡ true
        → create_cognito_auth environ ≡ some me
        → get_auth_header initiate_auth clock me "access" auth ≡ (ok h, after)
        → clob.rpc ≡ rstrip_slash (get_proxy_url environ) ++ "/chain"
        → IsGuarded (sent_with (some h) after)

  header-IsGuarded :
      (me : Credentials) (r : Result (String × String) × CognitoAuth)
      → proxy ≡ true
      → create_cognito_auth environ ≡ some me
      → get_auth_header initiate_auth clock me "access" auth ≡ r
      → clob.rpc ≡ rstrip_slash (get_proxy_url environ) ++ "/chain"
      → IsGuarded (
          call_with initiate_auth clock post clob to call_data retries
            (header initiate_auth clock r)
            s)
  unfolding call_with
  header-IsGuarded me (raised e, after) on c h host = refused me e after c h
  header-IsGuarded me (ok h, after) on c k host = proxied me h after on c k host

  proxy_host :
      (get_proxy_url environ == "") ≡ false
      → get_chain_host true (get_proxy_url environ)
        ≡ rstrip_slash (get_proxy_url environ) ++ "/chain"
  unfolding get_chain_host host_of
  proxy_host h = rw h refl

  headers_for-IsGuarded :
      (b is_proxy : Bool) (me : Option Credentials)
      → proxy ≡ b
      → auth_for b environ ≡ me
      → clob.rpc ≡ get_chain_host b (get_proxy_url environ)
      → (get_proxy_url environ == "") ≡ false
      → IsGuarded (
          call_with initiate_auth clock post clob to call_data retries
            (headers_for initiate_auth clock is_proxy me auth)
            s)
  unfolding call_with headers_for auth_for
  headers_for-IsGuarded b false me p c host h = plain
  headers_for-IsGuarded b true none p c host h = plain
  headers_for-IsGuarded false true (some me) p c host h = cc
  headers_for-IsGuarded true true (some me) p c host h =
      header-IsGuarded me (get_auth_header initiate_auth clock me "access" auth) p c refl
        (host ∙ proxy_host h)

  -- Where PMPROXY_URL is set, a call of the chain by a client that `create_authenticated_clob` gives
  -- has no token in its requests, and leaves the cache of tokens alone; or it could get no token, and
  -- then no request is sent; or the proxy was asked for, the requests go to the proxy, and
  -- have the token that the authentication of the environment's credentials gives.
  pub authorized_call-IsGuarded :
      create_authenticated_clob int_of proxy environ ≡ created clob
      → (get_proxy_url environ == "") ≡ false
      → IsGuarded (authorized_call initiate_auth clock post clob to call_data retries auth s)
  unfolding authorized_call get_headers
  authorized_call-IsGuarded made h =
      let built = create_authenticated_clob-IsBuilt proxy environ int_of made in
      headers_for-IsGuarded proxy clob.is_proxy clob.cognito_auth refl (sym built.credentials)
        built.rpc_host h
