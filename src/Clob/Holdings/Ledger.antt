-- ===== src/Clob/Holdings/Ledger.antt =====
-- What `positions` gives where the node answers every call.
use pmt.Prelude.{
  ℕ, String, Bool, true, false, ◌≡◌, refl, ap, Option, some, List, [], ◌∷◌, take, not, skip_if,
  arith, ◌>>=◌, ◌>>◌, inl, inr, Option-cases,
}
use pmt.Numeric.{Numeric, ◌<?◌}
use pmt.Dict.{Dict}
use pmt.Clob.Hex.{int_decimal}
use pmt.Clob.Session.{Response, Session}
use pmt.Clob.Chain.{ctf_contract, token_data, shares_of, token_balance}
use pmt.Clob.Chain.Reads.{IsNode, token_balance-IsNode}
use pmt.Clob.Holdings.{
  Trade, Meta, Position, holding, with_holding, throttle, balance_loop, positions,
}
use pmt.Clob.Holdings.Distinct.{firsts, meta_loop-take}

-- The balances of an address in the contract of outcome tokens.
abbrev pub ledger : (String → String → ℕ) → String → ℕ → ℕ
ledger contract funder token = contract ctf_contract (token_data funder token)

module _ {F : Type 0} ⦃f : Numeric F⦄ where
  -- What a ledger of balances says of a token: a position, if its id is a number and the shares
  -- are more than 0.01.
  abbrev pub owned : (ℕ → ℕ) → String → Meta → Option (Position F)
  owned balance token_id m = do
    token ← int_decimal token_id
    skip_if (not (f.lit 1 2 <? shares_of (balance token)))
    some (record {
      token_id = token_id;
      outcome = m.outcome;
      market = m.market;
      shares = shares_of (balance token);
    })

  pub all_owned : (ℕ → ℕ) → Dict Meta → List (Position F)
  all_owned balance [] = []
  all_owned balance ((token_id, m) ∷ tokens) =
      with_holding (owned balance token_id m) (all_owned balance tokens)

  module _ {post : String → String → ℕ → Response} {contract : String → String → ℕ}
      (node : IsNode post contract) (funder : String) where
    one-owned :
        (token_id : String) (m : Meta) (s : Session)
        → holding token_id m (token_balance post funder token_id s).0
          ≡ owned (ledger contract funder) token_id m
    unfolding token_balance holding
    one-owned token_id m s = elim (Option-cases (int_decimal token_id)) [
      | inl e ↦ rw e refl
      | inr (token, e) ↦
          rw (token_balance-IsNode node funder token_id token s e) (rw e (ground arith))
    ]

    balance_loop-owned :
        (first : Bool) (tokens : Dict Meta) (s : Session)
        → (balance_loop post funder first tokens s).0 ≡ all_owned (ledger contract funder) tokens
    unfolding balance_loop all_owned
    balance_loop-owned first [] s = refl
    balance_loop-owned first ((token_id, m) ∷ tokens) s =
        rw (one-owned token_id m (throttle first s)) (
          ap (with_holding (owned (ledger contract funder) token_id m)) (
            balance_loop-owned false tokens
              (token_balance post {F = F} funder token_id (throttle first s)).1))

    -- Where the node answers every call, the positions are those that the ledger of the contract
    -- shows for the first trades of the different tokens, up to `max_tokens` of them: every token
    -- with a balance of more than 0.01 shares and no other, in the order of the trades.
    pub positions-owned :
        (max_tokens : ℕ) (trades : List Trade) (s : Session)
        → (positions post funder max_tokens trades s).0
          ≡ all_owned (ledger contract funder) (take max_tokens (firsts (λ id. false) trades))
    unfolding positions
    positions-owned max_tokens trades s =
        rw (meta_loop-take max_tokens trades) (balance_loop-owned true _ s)
