-- ===== src/Strategies/SureBets/Opportunities.antt =====
-- `scan_opportunities` of pmstrat/pmstrat/strategies/sure_bets.py, which lists what could be bought.
-- `decimal_of` is `Decimal(str(x))` and `float_of` is `float(x)`.
use mathlib.Core.List.{Memᴰ}
use mathlib.Core.List.Memᴰ.{head, tail}
use pmt.Prelude.{
  ℕ, String, ◌≡◌, refl, Bool, Option, none, some, List, [], ◌∷◌, All, All-map, if◌then◌else◌, ◌>>=◌,
  ◌>>◌, skip_if, Ensures, gives, Ensures->>=, Ensures-map, Ensures-self, Ensures-skip_if,
}
use pmt.Numeric.{Numeric, ◌-◌, ◌*◌, ◌/◌, ◌<?◌, ◌≤◌, nought, divide}
use pmt.Numeric.Order.{IsLinear}
use pmt.Sort.{sort, Sorted, sort-All, sort-Sorted}
use pmt.Dict.{Dict}
use pmt.Context.{OrderBookSnapshot, MarketInfo, Context, book, hours_until_expiry}

pub record Opportunity (F : Type 0) : Type 0 where
  pub token_id : String
  pub question : String
  pub outcome : String
  pub ask_price : F
  pub ask_size : F
  pub hours_left : F
  pub expected_return_pct : F
  pub hourly_return_pct : F

module _ {D F : Type 0} ⦃d : Numeric D⦄ ⦃f : Numeric F⦄ (decimal_of : F → D) (float_of : D → F)
    (hours : ℕ → F) where
  -- The entry for a market, with the hours, the price and the size; `none` is a division by zero.
  unfoldable pub opportunity_at : String → MarketInfo F → F → D → D → Option (Opportunity F)
  opportunity_at token_id m hours_left ask_price ask_size = do
    let expected_return = (d.lit 100 2 - ask_price) / ask_price
    let least = f.lit 1 1
    hourly_return ←
        divide expected_return (decimal_of (if hours_left <? least then least else hours_left))
    some (record {
      token_id = token_id;
      question = m.question;
      outcome = m.outcome;
      ask_price = float_of ask_price;
      ask_size = float_of ask_size;
      hours_left = hours_left;
      expected_return_pct = float_of (expected_return * d.lit 100 0);
      hourly_return_pct = float_of (hourly_return * d.lit 100 0);
    })

  -- The hours, the price and the size for a market, or none where the loop continues.
  unfoldable pub eligible : Context D F → String → MarketInfo F → Option (F × D × D)
  eligible ctx token_id m = do
    hours_left ← hours_until_expiry hours m
    skip_if (hours_left <? nought)
    skip_if (f.lit 48 0 <? hours_left)
    b ← book ctx token_id
    ask_price ← b.best_ask
    skip_if (ask_price <? d.lit 95 2)
    skip_if (d.lit 99 2 <? ask_price)
    some (hours_left, ask_price, b.ask_size)

  unfoldable pub add_entry :
      String
      → MarketInfo F
      → Option (F × D × D)
      → Option (List (Opportunity F))
      → Option (List (Opportunity F))
  add_entry token_id m none rest = rest
  add_entry token_id m (some (hours_left, ask_price, ask_size)) rest = do
    o ← opportunity_at token_id m hours_left ask_price ask_size
    os ← rest
    some (o ∷ os)

  unfoldable pub list_markets : Context D F → Dict (MarketInfo F) → Option (List (Opportunity F))
  list_markets ctx [] = some []
  list_markets ctx ((token_id, m) ∷ markets) =
      add_entry token_id m (eligible ctx token_id m) (list_markets ctx markets)

  -- The key of the sort is the hourly return, in reverse.
  abbrev pub returns_more : Opportunity F → Opportunity F → Bool
  returns_more x y = y.hourly_return_pct <? x.hourly_return_pct

  -- `scan_opportunities`, or none where a division raises.
  unfoldable pub scan_opportunities : Context D F → Option (List (Opportunity F))
  scan_opportunities ctx = do
    opportunities ← list_markets ctx ctx.markets
    some (sort returns_more opportunities)

  -- What a market of the context that can be bought has: its end within 48 hours, and a book with an
  -- ask from 0.95 to 0.99.
  pub record IsEligible (ctx : Context D F) (token_id : String) (m : MarketInfo F) (e : F × D × D)
      : Type 0 where
    pub snapshot : OrderBookSnapshot D
    pub has_book : book ctx token_id ≡ some snapshot
    pub has_ask : snapshot.best_ask ≡ some e.1
    pub has_size : snapshot.ask_size ≡ e.2
    pub has_end : hours_until_expiry hours m ≡ some e.0
    pub certain : d.lit 95 2 ≤ e.1
    pub not_sure : e.1 ≤ d.lit 99 2
    pub open_still : nought ≤ e.0
    pub soon : e.0 ≤ f.lit 48 0

  -- An entry of a market of the context: its token, question and outcome, the hours until its end,
  -- and the price and the size that are asked for in the book of its token.
  pub record IsListed (ctx : Context D F) (markets : Dict (MarketInfo F)) (o : Opportunity F)
      : Type 0 where
    pub m : MarketInfo F
    pub price : D
    pub size : D
    pub of_market : Memᴰ (o.token_id, m) markets
    pub question : o.question ≡ m.question
    pub outcome : o.outcome ≡ m.outcome
    pub shown_price : o.ask_price ≡ float_of price
    pub shown_size : o.ask_size ≡ float_of size
    pub eligible : IsEligible ctx o.token_id m (o.hours_left, price, size)

  eligible-IsEligible :
      (ctx : Context D F) (token_id : String) (m : MarketInfo F)
      → Ensures (IsEligible ctx token_id m) (eligible ctx token_id m)
  unfolding eligible
  eligible-IsEligible ctx token_id m =
      Ensures->>= (Ensures-self (hours_until_expiry hours m)) (λ hours_left has_end.
        Ensures-skip_if (hours_left <? nought) (λ h.
          Ensures-skip_if (f.lit 48 0 <? hours_left) (λ k.
            Ensures->>= (Ensures-self (book ctx token_id)) (λ b has_book.
              Ensures->>= (Ensures-self b.best_ask) (λ ask_price has_ask.
                Ensures-skip_if (ask_price <? d.lit 95 2) (λ p.
                  Ensures-skip_if (d.lit 99 2 <? ask_price) (λ q. gives (record {
                    snapshot = b;
                    has_book = has_book;
                    has_ask = has_ask;
                    has_size = refl;
                    has_end = has_end;
                    certain = p;
                    not_sure = q;
                    open_still = h;
                    soon = k;
                  }))))))))

  opportunity_at-IsListed :
      (ctx : Context D F) (token_id : String) (m : MarketInfo F) (markets : Dict (MarketInfo F))
      (hours_left : F) (ask_price ask_size : D)
      → IsEligible ctx token_id m (hours_left, ask_price, ask_size)
      → Ensures
          (IsListed ctx ((token_id, m) ∷ markets))
          (opportunity_at token_id m hours_left ask_price ask_size)
  unfolding opportunity_at
  opportunity_at-IsListed ctx token_id m markets hours_left ask_price ask_size e =
      let least = f.lit 1 1 in
      let expected_return = (d.lit 100 2 - ask_price) / ask_price in
      let hours_from_now = if hours_left <? least then least else hours_left in
      Ensures->>= (Ensures-self (divide expected_return (decimal_of hours_from_now)))
        (λ hourly_return _. gives (record {
          m = m;
          price = ask_price;
          size = ask_size;
          of_market = head refl;
          question = refl;
          outcome = refl;
          shown_price = refl;
          shown_size = refl;
          eligible = e;
        }))

  IsListed-more :
      (ctx : Context D F) (entry : String × MarketInfo F) (markets : Dict (MarketInfo F))
      (o : Opportunity F)
      → IsListed ctx markets o
      → IsListed ctx (entry ∷ markets) o
  IsListed-more ctx entry markets o h = record {
    m = h.m;
    price = h.price;
    size = h.size;
    of_market = tail h.of_market;
    question = h.question;
    outcome = h.outcome;
    shown_price = h.shown_price;
    shown_size = h.shown_size;
    eligible = h.eligible;
  }

  add_entry-IsListed :
      (ctx : Context D F) (token_id : String) (m : MarketInfo F) (markets : Dict (MarketInfo F))
      (o : Option (F × D × D)) (rest : Option (List (Opportunity F)))
      → Ensures (IsEligible ctx token_id m) o
      → Ensures (All (IsListed ctx markets)) rest
      → Ensures (All (IsListed ctx ((token_id, m) ∷ markets))) (add_entry token_id m o rest)
  unfolding add_entry
  add_entry-IsListed ctx token_id m markets none rest h k =
      Ensures-map k (λ os. All-map os (IsListed-more ctx (token_id, m) markets))
  add_entry-IsListed ctx token_id m markets (some (hours_left, ask_price, ask_size)) rest (gives h)
        k =
      Ensures->>= (opportunity_at-IsListed ctx token_id m markets hours_left ask_price ask_size h)
        (λ o p.
          Ensures->>= k (λ os q. gives (p, All-map os (IsListed-more ctx (token_id, m) markets) q)))

  list_markets-IsListed :
      (ctx : Context D F) (markets : Dict (MarketInfo F))
      → Ensures (All (IsListed ctx markets)) (list_markets ctx markets)
  unfolding list_markets
  list_markets-IsListed ctx [] = gives tt
  list_markets-IsListed ctx ((token_id, m) ∷ markets) =
      add_entry-IsListed ctx token_id m markets (eligible ctx token_id m) (list_markets ctx markets)
        (eligible-IsEligible ctx token_id m) (list_markets-IsListed ctx markets)

  -- Over floats in a linear order, as they are where none is NaN, and if no division raises: each
  -- opportunity that the scan lists is of a market of the context, with its question, its outcome and
  -- the hours until its end, which are at most 48 and not past, and with the ask of its token's book
  -- and its size, at a price from 0.95 to 0.99. Those with the higher hourly return are listed first.
  pub scan_opportunities-IsListed :
      (laws : IsLinear F) (ctx : Context D F)
      → Ensures
          (λ os. All (IsListed ctx ctx.markets) os × Sorted returns_more os)
          (scan_opportunities ctx)
  unfolding scan_opportunities
  scan_opportunities-IsListed laws ctx =
      Ensures->>= (list_markets-IsListed ctx ctx.markets) (λ os h. gives (
        sort-All returns_more (IsListed ctx ctx.markets) os h,
        sort-Sorted returns_more (λ a b. laws.lt_asymm b.hourly_return_pct a.hourly_return_pct)
            (λ a b c e k.
              laws.le_trans c.hourly_return_pct b.hourly_return_pct a.hourly_return_pct k e)
            os,
      ))
