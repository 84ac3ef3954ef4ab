-- ===== src/Tests/Sessions.antt =====
-- Tokens for the proxy, redemptions, dialogues of the trading script, and repeated scans.
use Prim.Native.Nat.{zero, suc}
use pmt.Prelude.{
  ℕ, String, Bool, true, false, ◌≡◌, refl, Option, none, some, List, [], ◌∷◌, All, if◌then◌else◌,
}
use pmt.Numeric.Rational.{ℚ, rational}
use pmt.Cognito.{
  Credentials, AuthRequest, AuthResponse, answered, client_error, CognitoAuth, second, get_token,
}
use pmt.Cognito.Cache.{IsAcquired, get_token-IsAcquired}
use pmt.Clob.Session.{Session}
use text.Mathlib.Text.{◌==◌}
use pmt.Clob.Orders.{Call, posts, post_order}
use pmt.Redeem.{
  ResolvedPosition, Redemption, Relay, Answer, accepted, raised, redemption_of, redeem_position,
}
use pmt.Redeem.Calls.{IsRedeemed, redeem_position-IsRedeemed}
use pmt.Trade.{
  Float, number, nan, place_limit_order, ask_price, ask_size, confirm_limit, buy, sell, Action,
  limit, market, open_orders, exit, run_actions,
}
use pmt.Trade.Guards.{IsAllowedBy, run_actions-IsAllowed}
use pmt.Scanner.{VolumeCliffOpportunity}
use pmt.Scanner.Continuous.{
  Round, scanned, raised as scan_raised, scan_continuous, filter_new, is_seen,
}
use pmt.Scanner.Continuous.Seen.{AllNew, shown_keys, scan_continuous-AllNew}
use pmt.Tests.Backtesting.{cents, shares}
use pmt.Tests.Scanning as Scanning

abbrev pub me : Credentials
me = record { client_id = "app"; username = "me"; password = "secret"; region = "us-east-1" }

-- The first request is answered, others are refused.
abbrev pub service_at : ℕ → AuthResponse
service_at zero = answered (record {
  access_token = some "access";
  id_token = some "id";
  refresh_token = some "again";
  expires_in = some 3600;
})
service_at (suc n) = client_error (some "NotAuthorizedException") none "refused"

abbrev pub service : AuthRequest → ℕ → AuthResponse
service request n = service_at n

abbrev pub new_auth : CognitoAuth
new_auth = record { token = none; requests = 0; readings = 0 }

abbrev pub clock : ℕ → ℕ
clock n = second

get_token-IsAcquired_example :
    IsAcquired service clock me "access" new_auth (get_token service clock me "access" new_auth)
get_token-IsAcquired_example = get_token-IsAcquired service clock me "access" new_auth

abbrev pub start : Session
start = record { sent = 0; slept = 0 }

abbrev won_position : ResolvedPosition ℚ
won_position = record {
  position = record { token_id = "12"; outcome = "Yes"; market = "0xBEe"; shares = shares 2 };
  condition_id = "0xBEe";
  won = true;
  payout = shares 2;
}

-- The first call is limited.
relay_at : ℕ → Answer
relay_at zero = raised "Rate limit exceeded"
relay_at (suc n) = accepted

abbrev relay : Redemption ℚ → ℕ → Answer
relay call n = relay_at n

abbrev quiet : Relay ℚ
quiet = record { calls = []; slept = 0 }

redeem_position-IsRedeemed_example :
    IsRedeemed relay 3
      (redemption_of won_position)
      0
      []
      (redeem_position relay false won_position quiet)
redeem_position-IsRedeemed_example = redeem_position-IsRedeemed relay won_position quiet

-- A text as long as its number of cents, NaN, and no number if it is empty.
abbrev cents_of : String → Option (Float ℚ)
cents_of String.[] = none
cents_of (String.◌∷◌ c s) =
    if String.◌∷◌ c s == "nan" then some nan else some (number (cents (length_of (String.◌∷◌ c s))))
  where
    length_of : String → ℕ
    length_of String.[] = 0
    length_of (String.◌∷◌ d t) = suc (length_of t)

abbrev session : List Action
session =
    limit "12" buy (record { price = "aaaaaaaaa"; size = "aa"; confirmed = true })
    ∷ market "7" sell (record { amount = ""; confirmed = true })
    ∷ open_orders (some (record { id = some "order"; price = some "a"; size = none } ∷ []))
        (record { cancel_one = true; choice = "1"; cancel_every = false })
    ∷ exit
    ∷ []

abbrev takes : Call (Float ℚ) → Bool
takes call = true

run_actions-IsAllowed_example :
    All (IsAllowedBy cents_of session) (run_actions cents_of takes session)
run_actions-IsAllowed_example = run_actions-IsAllowed cents_of takes session

-- A size of NaN passes the test for a positive one.
nan_order :
    (place_limit_order cents_of takes "12" buy
      (record { price = "aaaaaaaaa"; size = "nan"; confirmed = true })).calls
    ≡ posts (record { token_id = "12"; price = number (cents 9); size = nan; side = "BUY" }) ∷ []
unfolding place_limit_order ask_price ask_size confirm_limit post_order pmt.Numeric.Rational.lt
nan_order = refl

abbrev found : VolumeCliffOpportunity ℚ
found = record {
  market = Scanning.market;
  token = Scanning.token;
  price_pct = cents 9300;
  buy_levels = [];
  cliff_level = record { price = cents 96; size = shares 3000; value = shares 2880 };
  dollar_value_jump = shares 2833;
  potential_resale_price = cents 95;
}

abbrev rounds : List (Round ℚ)
rounds = scanned (found ∷ []) ∷ scan_raised ∷ scanned (found ∷ found ∷ []) ∷ []

scan_continuous-AllNew_example : AllNew [] (shown_keys (scan_continuous (some 2) 0 [] rounds))
scan_continuous-AllNew_example = scan_continuous-AllNew (some 2) rounds 0 []

-- The second scan has nothing new.
shown_once : scan_continuous (some 2) 0 [] rounds ≡ (found ∷ []) ∷ [] ∷ []
unfolding scan_continuous filter_new is_seen
shown_once = refl
