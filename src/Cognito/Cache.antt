-- ===== src/Cognito/Cache.antt =====
-- Where a token comes from, what is asked of the service for it, and what is left in the cache.
use Prim.Native.Nat.{suc, ◌+◌, ◌-◌, ◌*◌, ◌<◌, ◌≤◌}
use pmt.Prelude.{
  ℕ, String, ◌≡◌, refl, ap, ◌∙◌, true, false, Option, none, some, arith, Bool-cases, inl, inr,
  Ensures, raises, gives, Ensures->>=, Ensures-self,
}
use pmt.Cognito.{
  CognitoToken, Credentials, AuthRequest, user_password, refresh, AuthenticationResult,
  AuthResponse, answered, client_error, unreached, Failure, Result, ok, raised, CognitoAuth, second,
  refresh_buffer, default_to, given, sent, clock_read, token_of, is_valid_at, authenticated,
  on_auth, authenticate, refreshed, on_refresh, refresh_token, chosen, store, token_at, checked,
  get_token,
}

-- The token of a result, which has both of its texts.
pub record IsRead (result : AuthenticationResult) (now : ℕ) (token : CognitoToken) : Type 0 where
  pub access : given result.access_token ≡ some token.access_token
  pub id : given result.id_token ≡ some token.id_token
  pub expires : token.expires_at ≡ now + default_to 3600 result.expires_in * second

token_of-IsRead :
    (result : AuthenticationResult) (refresh_token : Option String) (now : ℕ)
    → Ensures (IsRead result now) (token_of result refresh_token now)
unfolding token_of
token_of-IsRead result refresh_token now =
    Ensures->>= (Ensures-self (given result.access_token)) λ access_token access.
      Ensures->>= (Ensures-self (given result.id_token))
        λ id_token id. gives (record { access = access; id = id; expires = refl })

no_token : (now : ℕ) → is_valid_at none now ≡ false
unfolding is_valid_at
no_token now = refl

valid_at :
    (token : CognitoToken) (now : ℕ)
    → is_valid_at (some token) now ≡ true
    → now < token.expires_at - refresh_buffer
unfolding is_valid_at
valid_at token now h = ground arith

module _ (initiate_auth : AuthRequest → ℕ → AuthResponse) (clock : ℕ → ℕ) (me : Credentials) where
  -- The token is that of a response, the n-th.
  pub record IsFrom (n : ℕ) (token : CognitoToken) : Type 0 where
    pub request : AuthRequest
    pub result : AuthenticationResult
    pub reading : ℕ
    pub is_answer : initiate_auth request n ≡ answered result
    pub is_read : IsRead result (clock reading) token

  -- A token is fetched from a state, with at most `more` requests before the last one; the cache is
  -- not touched.
  data Fetches (s : CognitoAuth) (more : ℕ) : Result CognitoToken × CognitoAuth → Type 0 where
    got :
        {token : CognitoToken} {t : CognitoAuth} (n : ℕ)
        → IsFrom n token
        → t.requests ≡ suc n
        → s.requests ≤ n
        → n ≤ s.requests + more
        → t.token ≡ s.token
        → Fetches s more (ok token, t)
    lost :
        {e : Failure} {t : CognitoAuth}
        → s.requests < t.requests
        → t.requests ≤ suc (s.requests + more)
        → t.token ≡ s.token
        → Fetches s more (raised e, t)

  authenticated-Fetches :
      (s : CognitoAuth) (request : AuthRequest) (result : AuthenticationResult)
      {o : Option CognitoToken}
      → initiate_auth request s.requests ≡ answered result
      → Ensures (IsRead result (clock s.readings)) o
      → Fetches s 0 (authenticated o (sent s))
  unfolding authenticated
  authenticated-Fetches s request result h raises = lost (omega arith) (omega arith) refl
  authenticated-Fetches s request result h (gives is_read) =
      got s.requests
        (record {
          request = request;
          result = result;
          reading = s.readings;
          is_answer = h;
          is_read = is_read;
        })
        refl (omega arith) (omega arith) refl

  on_auth-Fetches :
      (s : CognitoAuth) (response : AuthResponse)
      → initiate_auth (user_password me) s.requests ≡ response
      → Fetches s 0 (on_auth initiate_auth clock me response (sent s))
  unfolding on_auth
  on_auth-Fetches s (answered result) h =
      authenticated-Fetches s (user_password me) result h
        (token_of-IsRead result result.refresh_token (clock s.readings))
  on_auth-Fetches s (client_error code msg text) h = lost (omega arith) (omega arith) refl
  on_auth-Fetches s unreached h = lost (omega arith) (omega arith) refl

  authenticate-Fetches : (s : CognitoAuth) → Fetches s 0 (authenticate initiate_auth clock me s)
  unfolding authenticate
  authenticate-Fetches s = on_auth-Fetches s (initiate_auth (user_password me) s.requests) refl

  -- One request more, before.
  later-Fetches :
      {s : CognitoAuth} {r : Result CognitoToken × CognitoAuth}
      → Fetches (sent s) 0 r
      → Fetches s 1 r
  later-Fetches (got n from last low high cache) = got n from last (omega arith) (omega arith) cache
  later-Fetches (lost low high cache) = lost (omega arith) (omega arith) cache

  more-Fetches :
      {s : CognitoAuth} {r : Result CognitoToken × CognitoAuth} → Fetches s 0 r → Fetches s 1 r
  more-Fetches (got n from last low high cache) = got n from last (omega arith) (omega arith) cache
  more-Fetches (lost low high cache) = lost (omega arith) (omega arith) cache

  refreshed-Fetches :
      (s : CognitoAuth) (request : AuthRequest) (result : AuthenticationResult)
      {o : Option CognitoToken}
      → initiate_auth request s.requests ≡ answered result
      → Ensures (IsRead result (clock s.readings)) o
      → Fetches s 1 (refreshed initiate_auth clock me o (sent s))
  unfolding refreshed
  refreshed-Fetches s request result h raises = later-Fetches (authenticate-Fetches (sent s))
  refreshed-Fetches s request result h (gives is_read) =
      got s.requests
        (record {
          request = request;
          result = result;
          reading = s.readings;
          is_answer = h;
          is_read = is_read;
        })
        refl (omega arith) (omega arith) refl

  on_refresh-Fetches :
      (s : CognitoAuth) (token : String) (response : AuthResponse)
      → initiate_auth (refresh me token) s.requests ≡ response
      → Fetches s 1 (on_refresh initiate_auth clock me token response (sent s))
  unfolding on_refresh
  on_refresh-Fetches s token (answered result) h =
      refreshed-Fetches s (refresh me token) result h
        (token_of-IsRead result (some token) (clock s.readings))
  on_refresh-Fetches s token (client_error code msg text) h =
      later-Fetches (authenticate-Fetches (sent s))
  on_refresh-Fetches s token unreached h = lost (omega arith) (omega arith) refl

  refresh_token-Fetches :
      (s : CognitoAuth) (token : Option String)
      → Fetches s 1 (refresh_token initiate_auth clock me token s)
  unfolding refresh_token
  refresh_token-Fetches s none = more-Fetches (authenticate-Fetches s)
  refresh_token-Fetches s (some token) =
      on_refresh-Fetches s token (initiate_auth (refresh me token) s.requests) refl

  stale_at :
      (s : CognitoAuth) {o : Option CognitoToken}
      → s.token ≡ o
      → is_valid_at o (clock s.readings) ≡ false
      → is_valid_at s.token (clock s.readings) ≡ false
  stale_at s h e = ap (λ o. is_valid_at o (clock s.readings)) h ∙ e

  -- How a call for a token of some kind ends.
  pub data IsAcquired (token_type : String) (s : CognitoAuth)
      : Result String × CognitoAuth → Type 0 where
    cached :
        {token : CognitoToken} {t : CognitoAuth}
        → s.token ≡ some token
        → clock s.readings < token.expires_at - refresh_buffer
        → t.token ≡ s.token
        → t.requests ≡ s.requests
        → IsAcquired token_type s (ok (chosen token_type token), t)
    renewed :
        {token : CognitoToken} {t : CognitoAuth} (n : ℕ)
        → is_valid_at s.token (clock s.readings) ≡ false
        → IsFrom n token
        → t.requests ≡ suc n
        → s.requests ≤ n
        → n ≤ s.requests + 1
        → t.token ≡ some token
        → IsAcquired token_type s (ok (chosen token_type token), t)
    refused :
        {e : Failure} {t : CognitoAuth}
        → is_valid_at s.token (clock s.readings) ≡ false
        → s.requests < t.requests
        → t.requests ≤ s.requests + 2
        → t.token ≡ s.token
        → IsAcquired token_type s (raised e, t)

  store-IsAcquired :
      (token_type : String) (s t : CognitoAuth) {r : Result CognitoToken × CognitoAuth}
      → is_valid_at s.token (clock s.readings) ≡ false
      → t.requests ≡ s.requests
      → t.token ≡ s.token
      → Fetches t 1 r
      → IsAcquired token_type s (store token_type r)
  unfolding store
  store-IsAcquired token_type s t stale same cache (got n from last low high kept) =
      renewed n stale from last (omega arith) (omega arith) refl
  store-IsAcquired token_type s t stale same cache (lost low high kept) =
      refused stale (omega arith) (omega arith) (kept ∙ cache)

  token_at-IsAcquired :
      (token_type : String) (s : CognitoAuth) (token : Option CognitoToken)
      → s.token ≡ token
      → IsAcquired token_type s
          (token_at initiate_auth clock me token_type token (clock s.readings) (checked token s))
  unfolding token_at
  token_at-IsAcquired token_type s none h =
      store-IsAcquired token_type s s (stale_at s h (no_token (clock s.readings))) refl refl
        (more-Fetches (authenticate-Fetches s))
  token_at-IsAcquired token_type s (some token) h =
      elim (Bool-cases (is_valid_at (some token) (clock s.readings))) [
        | inl e ↦ rw e (cached h (valid_at token (clock s.readings) e) refl refl)
        | inr e ↦ rw e (
            store-IsAcquired token_type s (clock_read s) (stale_at s h e) refl refl
              (refresh_token-Fetches (clock_read s) (given token.refresh_token)))
      ]

  -- A call for a token gives the token of the cache, without a request, if it expires in more than five
  -- minutes. Otherwise it sends one or two requests, and either puts the token of the
  -- last response, with both of its texts, in the cache and gives it, or it fails and leaves the cache as it was.
  pub get_token-IsAcquired :
      (token_type : String) (s : CognitoAuth)
      → IsAcquired token_type s (get_token initiate_auth clock me token_type s)
  unfolding get_token
  get_token-IsAcquired token_type s = token_at-IsAcquired token_type s s.token refl
