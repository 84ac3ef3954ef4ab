-- ===== src/Clob/Orders.antt =====
-- The orders of clob.py, `create_order`, `post_order`, `market_order` and the cancellations, as the calls
-- that they make of py_clob_client; and the hosts that they go to.
use Prim.Native.String.{String, [], ◌∷◌, ◌++◌}
use text.Mathlib.Text.{◌==◌}
use pmt.Prelude.{Bool, Option, ◌&&◌, not, if◌then◌else◌}
use pmt.Clob.Hex.{is_code}

pub record OrderArgs (F : Type 0) : Type 0 where
  pub token_id : String
  pub price : F
  pub size : F
  pub side : String

pub record MarketOrderArgs (F : Type 0) : Type 0 where
  pub token_id : String
  pub amount : F
  pub side : String

-- A call that signs, sends or cancels orders. A market order is sent as FOK, fill or kill.
pub data Call (F : Type 0) : Type 0 where
  signs : OrderArgs F → Call F
  posts : OrderArgs F → Call F
  posts_fok : MarketOrderArgs F → Call F
  cancels : Option String → Call F
  cancels_all : Call F

module _ {F : Type 0} where
  abbrev pub order_args : String → F → F → String → OrderArgs F
  order_args token_id price size side = record {
    token_id = token_id;
    price = price;
    size = size;
    side = side;
  }

  -- The argument `order_type` is not used.
  unfoldable pub create_order : String → F → F → String → String → Call F
  create_order token_id price size side order_type = signs (order_args token_id price size side)

  unfoldable pub post_order : String → F → F → String → String → Call F
  post_order token_id price size side order_type = posts (order_args token_id price size side)

  unfoldable pub market_order : String → F → String → Call F
  market_order token_id amount side =
      posts_fok (record { token_id = token_id; amount = amount; side = side })

-- `text.rstrip("/")`
unfoldable pub rstrip_slash : String → String
rstrip_slash [] = []
rstrip_slash (c ∷ s) =
    let rest = rstrip_slash s in if is_code 47 c && rest == "" then "" else c ∷ rest

-- The host of a service, for the value of PMPROXY_URL, which is empty where it is not set.
unfoldable pub host_of : String → String → Bool → String → String
host_of direct path proxy proxy_url =
    if proxy && not (proxy_url == "") then rstrip_slash proxy_url ++ path else direct

unfoldable pub get_clob_host : Bool → String → String
unfolding host_of rstrip_slash
get_clob_host proxy proxy_url = host_of "https://clob.polymarket.com" "/clob" proxy proxy_url

unfoldable pub get_gamma_host : Bool → String → String
unfolding host_of rstrip_slash
get_gamma_host proxy proxy_url = host_of "https://gamma-api.polymarket.com" "/gamma" proxy proxy_url

unfoldable pub get_chain_host : Bool → String → String
unfolding host_of rstrip_slash
get_chain_host proxy proxy_url = host_of "https://polygon-rpc.com" "/chain" proxy proxy_url
