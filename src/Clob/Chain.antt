-- ===== src/Clob/Chain.antt =====
-- The contracts of the chain that clob.py reads: `usdc_balance`, `token_balance`,
-- `is_condition_resolved` and `get_payout_numerators`.
pub mod Reads
use Prim.Native.Nat.{ℕ, zero, suc}
use Prim.Native.String.{String, ◌++◌}
use mathlib.Core.List.{◌++◌ as append}
use pmt.Prelude.{Bool, List, [], ◌∷◌, ltb}
use pmt.Numeric.{Numeric, ◌/◌}
use pmt.Clob.Hex.{int_hex, int_decimal, word, address_word, normalize_condition_id}
use pmt.Clob.Session.{Response, Client, ◌>>=◌, pure, parsed}
use pmt.Clob.Rpc.{rpc_call}

abbrev pub usdc_contract : String
usdc_contract = "0x2791Bca1f2de4661ED88A30C99A7a9449Aa84174"

abbrev pub ctf_contract : String
ctf_contract = "0x4D97DCd97eC945f40cF65F87097ACe5EA0476045"

-- The data of the calls: balanceOf(address), balanceOf(address, id), payoutDenominator(bytes32) and
-- payoutNumerators(bytes32, uint256).
unfoldable pub usdc_data : String → String
usdc_data funder = "0x70a08231" ++ address_word funder

unfoldable pub token_data : String → ℕ → String
token_data funder token = "0x00fdd58e" ++ address_word funder ++ word token

unfoldable pub denominator_data : String → String
denominator_data condition_id = "0xdd34de67" ++ normalize_condition_id condition_id

unfoldable pub numerator_data : String → ℕ → String
numerator_data condition_id idx = "0x0504c814" ++ normalize_condition_id condition_id ++ word idx

-- `balance / 1e6`
abbrev pub shares_of : {F : Type 0} ⦃f : Numeric F⦄ → ℕ → F
shares_of ⦃f⦄ balance = f.lit balance 0 / f.lit 1000000 0

module _ (post : String → String → ℕ → Response) where
  -- A call with the default number of rounds, and `int(_, 16)` of its result.
  unfoldable pub read_int : String → String → Client ℕ
  read_int to call_data = do hex_result ← rpc_call post to call_data 3; parsed (int_hex hex_result)

  unfoldable pub is_condition_resolved : String → Client Bool
  is_condition_resolved condition_id = do
    denominator ← read_int ctf_contract (denominator_data condition_id)
    pure (ltb 0 denominator)

  -- The loop over the indices from `idx`, with the numerators of those before.
  unfoldable pub read_numerators : String → ℕ → ℕ → List ℕ → Client (List ℕ)
  read_numerators condition_id zero idx numerators = pure numerators
  read_numerators condition_id (suc left) idx numerators = do
    numerator ← read_int ctf_contract (numerator_data condition_id idx)
    read_numerators condition_id left (suc idx) (append numerators (numerator ∷ []))

  unfoldable pub get_payout_numerators : String → Client (List ℕ)
  get_payout_numerators condition_id = read_numerators condition_id 2 0 []

  module _ {F : Type 0} ⦃f : Numeric F⦄ where
    unfoldable pub usdc_balance : String → Client F
    usdc_balance funder = do
      balance_wei ← read_int usdc_contract (usdc_data funder)
      pure (shares_of balance_wei)

    unfoldable pub token_balance : String → String → Client F
    token_balance funder token_id = do
      token ← parsed (int_decimal token_id)
      balance ← read_int ctf_contract (token_data funder token)
      pure (shares_of balance)
