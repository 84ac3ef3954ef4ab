-- ===== src/Strategies/SureBets/Bets.antt =====
-- What the sure_bets strategy buys.
use pmt.Prelude.{
  ℕ, String, ◌≡◌, refl, false, Option, none, some, List, [], ◌∷◌, if◌then◌else◌, inl, inr, ◌⊎◌, All,
  All-map, Bool-cases, arith, Ensures, gives, Ensures-elim, Ensures->>=, Ensures-self,
  Ensures-skip_if, Ensures-map,
}
use mathlib.Core.List.{Memᴰ}
use mathlib.Core.List.Memᴰ.{head, tail}
use pmt.Numeric.{Numeric, ◌-◌, ◌/◌, ◌<?◌, ◌≤?◌, ◌≤◌, ◌<◌, nought}
use pmt.Numeric.Order.{IsOrdered, le_refl}
use pmt.Dict.{Dict}
use pmt.Signal.{Signal, buy, hold, Urgency, or_hold-cases}
use pmt.Context.{OrderBookSnapshot, MarketInfo, Context, book, position, hours_until_expiry}
use pmt.Strategies.Quoting.{size_of}
use pmt.Strategies.Words.{lower}
use pmt.Strategies.SureBets.{
  is_excluded, is_thin, order_size, bet_at, bet_on, bets, on_tick, with_signal,
}

module _ {D : Type 0} ⦃d : Numeric D⦄ where
  -- A purchase at the ask, with its price and its size within bounds.
  pub record IsBounded (token : String) (ask ask_size current : D) (s : Signal D) : Type 0 where
    pub size : D
    pub signal : s ≡ buy token ask size Urgency.medium
    pub certain : d.lit 95 2 ≤ ask
    pub not_sure : ask ≤ d.lit 99 2
    pub below_limit : current < d.lit 100 0
    pub worthwhile : d.lit 10 0 ≤ size
    pub single : size ≤ d.lit 50 0
    pub available : size ≤ ask_size
    pub remaining : size ≤ d.lit 100 0 - current

  module _ (laws : IsOrdered D) where
    least-IsLower : (a b : D) → ((if a <? b then a else b) ≤ a) × ((if a <? b then a else b) ≤ b)
    least-IsLower a b = elim (Bool-cases (a <? b)) [
      | inl e ↦ rw e (le_refl laws a, laws.lt_asymm a b e)
      | inr e ↦ rw e (e, le_refl laws b)
    ]

    order_size-IsLower :
        (current ask_size : D)
        → (order_size current ask_size ≤ d.lit 50 0)
          × (order_size current ask_size ≤ ask_size)
          × (order_size current ask_size ≤ d.lit 100 0 - current)
    unfolding order_size
    order_size-IsLower current ask_size =
        let remaining = d.lit 100 0 - current in
        let size = if ask_size <? remaining then ask_size else remaining in
        let first = least-IsLower ask_size remaining in
        let second = least-IsLower (d.lit 50 0) size in
        (
          second.0,
          laws.le_trans _ size ask_size second.1 first.0,
          laws.le_trans _ size remaining second.1 first.1,
        )

    bet_at-IsBounded :
        (token : String) (ask ask_size current : D)
        → Ensures (IsBounded token ask ask_size current) (bet_at token ask ask_size current)
    unfolding bet_at
    bet_at-IsBounded token ask ask_size current =
        let bound = order_size-IsLower current ask_size in
        Ensures-skip_if (ask <? d.lit 95 2) (λ low. Ensures-skip_if (d.lit 99 2 <? ask) (λ high.
          Ensures-skip_if ((d.lit 100 2 - ask) / ask <? d.lit 1 2) (λ profit.
            Ensures-skip_if (d.lit 100 0 ≤? current) (λ limit.
              Ensures-skip_if (order_size current ask_size <? d.lit 10 0) (λ large. gives (record {
                size = order_size current ask_size;
                signal = refl;
                certain = low;
                not_sure = high;
                below_limit = ground (arith, limit);
                worthwhile = large;
                single = bound.0;
                available = bound.1;
                remaining = bound.2;
              }))))))

with_signal-All {ℓ κ} :
    {A : Type ℓ} {P : A → Type κ} (o : Option A) (rest : List A)
    → Ensures P o
    → All P rest
    → All P (with_signal o rest)
unfolding with_signal
with_signal-All none rest p q = q
with_signal-All (some a) rest p q = (Ensures-elim p refl, q)

module _ {D F : Type 0} ⦃d : Numeric D⦄ ⦃f : Numeric F⦄ where
  -- The signal buys one of the markets, which is not excluded and has a book with an ask.
  pub record IsBet (hours : ℕ → F) (ctx : Context D F) (markets : Dict (MarketInfo F))
      (s : Signal D) : Type 0 where
    pub token : String
    pub info : MarketInfo F
    pub entry : OrderBookSnapshot D
    pub ask : D
    pub hours_left : F
    pub listed : Memᴰ (token, info) markets
    pub allowed : is_excluded (lower info.question) ≡ false
    pub expires : hours_until_expiry hours info ≡ some hours_left
    pub soon : hours_left ≤ f.lit 48 0
    pub found : book ctx token ≡ some entry
    pub offered : entry.best_ask ≡ some ask
    pub bounded : IsBounded token ask entry.ask_size (size_of (position ctx token)) s

  module _ (laws : IsOrdered D) where
    bet_on-IsBet :
        (hours : ℕ → F) (ctx : Context D F) (token : String) (m : MarketInfo F)
        (markets : Dict (MarketInfo F))
        → Memᴰ (token, m) markets
        → Ensures (IsBet hours ctx markets) (bet_on hours ctx token m)
    unfolding bet_on
    bet_on-IsBet hours ctx token m markets listed =
        Ensures-skip_if (is_excluded (lower m.question)) (λ allowed.
          Ensures-skip_if (is_thin m.liquidity) (λ liquid.
            Ensures->>= (Ensures-self (hours_until_expiry hours m)) (λ hours_left expires.
              Ensures-skip_if (hours_left <? nought) (λ ahead.
                Ensures-skip_if (f.lit 48 0 <? hours_left) (λ soon.
                  Ensures->>= (Ensures-self (book ctx token)) (λ b found.
                    Ensures->>= (Ensures-self b.best_ask) (λ ask offered.
                      Ensures-map
                        (bet_at-IsBounded laws token ask b.ask_size (size_of (position ctx token)))
                        (λ s bounded. record {
                          token = token;
                          info = m;
                          entry = b;
                          ask = ask;
                          hours_left = hours_left;
                          listed = listed;
                          allowed = allowed;
                          expires = expires;
                          soon = soon;
                          found = found;
                          offered = offered;
                          bounded = bounded;
                        }))))))))

    later :
        (hours : ℕ → F) (ctx : Context D F) (x : String × MarketInfo F)
        (markets : Dict (MarketInfo F)) (s : Signal D)
        → IsBet hours ctx markets s
        → IsBet hours ctx (x ∷ markets) s
    later hours ctx x markets s bet = record {
      token = bet.token;
      info = bet.info;
      entry = bet.entry;
      ask = bet.ask;
      hours_left = bet.hours_left;
      listed = tail bet.listed;
      allowed = bet.allowed;
      expires = bet.expires;
      soon = bet.soon;
      found = bet.found;
      offered = bet.offered;
      bounded = bet.bounded;
    }

    bets-IsBet :
        (hours : ℕ → F) (ctx : Context D F) (markets : Dict (MarketInfo F))
        → All (IsBet hours ctx markets) (bets hours ctx markets)
    unfolding bets
    bets-IsBet hours ctx [] = tt
    bets-IsBet hours ctx ((token, m) ∷ markets) =
        with_signal-All (bet_on hours ctx token m) (bets hours ctx markets)
          (bet_on-IsBet hours ctx token m ((token, m) ∷ markets) (head refl))
          (All-map (bets hours ctx markets) (later hours ctx (token, m) markets)
            (bets-IsBet hours ctx markets))

    -- Over numbers with the laws of an order, a tick of the sure bets either holds or only buys at
    -- the asks of markets that the context lists: their questions have no excluded keyword, they
    -- expire within 48 hours, and the ask lies from 0.95 to 0.99. Each size is from 10 to 50, at
    -- most the size on the book, and at most what the limit of 100 shares leaves.
    pub on_tick-IsBet :
        (hours : ℕ → F) (ctx : Context D F)
        → (on_tick hours ctx ≡ hold ∷ []) ⊎ All (IsBet hours ctx ctx.markets) (on_tick hours ctx)
    unfolding on_tick
    on_tick-IsBet hours ctx = elim (or_hold-cases (bets hours ctx ctx.markets)) [
      | inl e ↦ inl e
      | inr e ↦ inr (rw e (bets-IsBet hours ctx ctx.markets))
    ]
