-- ===== src/Tests/Accounts.antt =====
-- Clients of the exchange, with the proxy of the environment and without one.
use pmt.Prelude.{◌≡◌, refl, String, true, Option, none, some, ℕ, [], ◌∷◌}
use pmt.Dict.{Dict, lookup}
use pmt.Clob.Session.{Response, replied}
use pmt.Clob.Orders.{host_of, get_clob_host, get_chain_host, rstrip_slash}
use pmt.Cognito.{
  Result, ok, CognitoAuth, authenticate, authenticated, create_cognito_auth, new_cognito_auth,
  get_auth_header, get_token, token_at, token_of, on_auth, store, header_of,
}
use pmt.Clob.Account.{
  AuthenticatedClob, created, Posted, new_clob, auth_for, with_keys, with_type,
  create_authenticated_clob, get_headers, headers_for, authorized_call,
}
use pmt.Clob.Account.Guarded.{IsGuarded, authorized_call-IsGuarded}
use pmt.Tests.Sessions.{me, service, clock, new_auth, start}

abbrev proxy_environ : Dict String
proxy_environ =
    ("PM_PRIVATE_KEY", "key")
    ∷ ("PM_FUNDER_ADDRESS", "0xf")
    ∷ ("PMPROXY_COGNITO_CLIENT_ID", "app")
    ∷ ("PMPROXY_USERNAME", "me")
    ∷ ("PMPROXY_PASSWORD", "secret")
    ∷ ("PMPROXY_COGNITO_REGION", "us-east-1")
    ∷ []

abbrev environ_at : String → String → Option String
environ_at url variable = lookup variable (("PMPROXY_URL", url) ∷ proxy_environ)

abbrev signature_of : String → Option ℕ
signature_of text = some 1

abbrev clob_at : String → String → AuthenticatedClob ℕ
clob_at host rpc = record {
  client = record { host = host; key = "key"; signature_type = 1; funder = "0xf" };
  rpc = rpc;
  cognito_auth = some me;
  is_proxy = true;
}

abbrev proxied_clob : AuthenticatedClob ℕ
proxied_clob = clob_at "https://proxy/clob" "https://proxy/chain"

proxied_clob_created :
    create_authenticated_clob signature_of true (environ_at "https://proxy/") ≡ created proxied_clob
unfolding create_authenticated_clob with_type with_keys new_clob auth_for get_clob_host
    get_chain_host host_of rstrip_slash create_cognito_auth new_cognito_auth lookup
proxied_clob_created = refl

abbrev one_at : Posted → String → String → ℕ → Response
one_at posted to call_data n = replied (record { error = none; result = some "0x1"; text = "" })

authorized_call-IsGuarded_example :
    IsGuarded service clock one_at signature_of true
      (environ_at "https://proxy/")
      proxied_clob
      "0xto"
      "0x70a08231"
      3
      new_auth
      start
      (authorized_call service clock one_at proxied_clob "0xto" "0x70a08231" 3 new_auth start)
unfolding lookup
authorized_call-IsGuarded_example =
    authorized_call-IsGuarded service clock one_at signature_of true (environ_at "https://proxy/")
      proxied_clob "0xto" "0x70a08231" 3 new_auth start proxied_clob_created refl

-- Where PMPROXY_URL is not set, a client for the proxy calls the public node.
abbrev direct_clob : AuthenticatedClob ℕ
direct_clob = clob_at "https://clob.polymarket.com" "https://polygon-rpc.com"

direct_clob_created :
    create_authenticated_clob signature_of true (λ name. lookup name proxy_environ)
    ≡ created direct_clob
unfolding create_authenticated_clob with_type with_keys new_clob auth_for get_clob_host
    get_chain_host host_of rstrip_slash create_cognito_auth new_cognito_auth lookup
direct_clob_created = refl

abbrev authorization_of : Result (Option (String × String)) × CognitoAuth → Option (String × String)
authorization_of (ok authorization, auth) = authorization
authorization_of (_, auth) = none

-- Its requests have the token.
direct_authorization :
    authorization_of (get_headers service clock direct_clob new_auth)
    ≡ some ("Authorization", "Bearer access")
unfolding get_headers headers_for get_auth_header get_token token_at authenticate on_auth token_of
    authenticated store header_of
direct_authorization = refl
