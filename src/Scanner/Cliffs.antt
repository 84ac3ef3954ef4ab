-- ===== src/Scanner/Cliffs.antt =====
-- The cliffs that the scanner reports.
use mathlib.Core.Path.{subst}
use pmt.Prelude.{
  ◌≡◌, refl, Option, some, List, [], ◌∷◌, ◌++◌, map, take, append_assoc, Ensures, raises, gives,
  Ensures->>=, Ensures-self, Ensures-skip_if, arith,
}
use pmt.Numeric.{Numeric, ◌-◌, ◌*◌, ◌<?◌, ◌≤?◌, ◌<◌, ◌≤◌}
use pmt.Scanner.{
  Market, Token, OrderBook, ValuedLevel, VolumeCliffOpportunity, with_value, absolute,
  average_price, resale_price, cliff_at, or_else, find_cliff, analyze_levels, analyze_order_book,
}

Ensures-or_else {κ} :
    {A : Type 0} {P : A → Type κ} {m n : Option A}
    → Ensures P m
    → Ensures P n
    → Ensures P (or_else m n)
Ensures-or_else raises q = q
Ensures-or_else (gives p) q = gives p

module _ {F : Type 0} ⦃f : Numeric F⦄ where
  -- The opportunity names a cliff in `levels`: the levels before it are bought, and sold for more
  -- than their average price.
  pub record IsCliff (jump gap : F) (levels : List (ValuedLevel F)) (o : VolumeCliffOpportunity F)
      : Type 0 where
    pub before : List (ValuedLevel F)
    pub thin : ValuedLevel F
    pub after : List (ValuedLevel F)
    pub average : F
    pub split : levels ≡ o.buy_levels ++ (o.cliff_level ∷ after)
    pub bought : o.buy_levels ≡ before ++ (thin ∷ [])
    pub jumps : o.dollar_value_jump ≡ o.cliff_level.value - thin.value
    pub large : jump ≤ o.dollar_value_jump
    pub apart : gap ≤ absolute (o.cliff_level.price - thin.price) * f.lit 100 0
    pub averaged : average_price o.buy_levels ≡ some average
    pub gains : average < o.potential_resale_price

  cliff_at-IsCliff :
      (market : Market F) (token : Token F) (jump gap : F) (before : List (ValuedLevel F))
      (thin cliff : ValuedLevel F) (after : List (ValuedLevel F))
      → let buys = before ++ (thin ∷ []) in
        Ensures
          (IsCliff jump gap (buys ++ (cliff ∷ after)))
          (cliff_at market token jump gap buys thin cliff)
  unfolding cliff_at
  cliff_at-IsCliff market token jump gap before thin cliff after =
      let buys = before ++ (thin ∷ []) in
      Ensures-skip_if (cliff.value - thin.value <? jump) (λ large.
        Ensures-skip_if (absolute (cliff.price - thin.price) * f.lit 100 0 <? gap) (λ apart.
          Ensures->>= (Ensures-self (average_price buys)) (λ average averaged.
            Ensures-skip_if (resale_price thin cliff ≤? average) (λ more. gives (record {
              before = before;
              thin = thin;
              after = after;
              average = average;
              split = refl;
              bought = refl;
              jumps = refl;
              large = large;
              apart = apart;
              averaged = averaged;
              gains = ground (arith, more);
            })))))

  find_cliff-IsCliff :
      (market : Market F) (token : Token F) (jump gap : F) (before : List (ValuedLevel F))
      (thin : ValuedLevel F) (rest : List (ValuedLevel F))
      → Ensures
          (IsCliff jump gap (before ++ (thin ∷ rest)))
          (find_cliff market token jump gap before thin rest)
  unfolding find_cliff
  find_cliff-IsCliff market token jump gap before thin [] = raises
  find_cliff-IsCliff market token jump gap before thin (cliff ∷ rest) =
      subst
        (λ levels.
          Ensures (IsCliff jump gap levels)
            (find_cliff market token jump gap before thin (cliff ∷ rest)))
        (append_assoc before (thin ∷ []) (cliff ∷ rest))
        (Ensures-or_else (cliff_at-IsCliff market token jump gap before thin cliff rest)
          (find_cliff-IsCliff market token jump gap (before ++ (thin ∷ [])) cliff rest))

  analyze_levels-IsCliff :
      (market : Market F) (token : Token F) (jump gap : F) (levels : List (ValuedLevel F))
      → Ensures (IsCliff jump gap levels) (analyze_levels market token jump gap levels)
  unfolding analyze_levels
  analyze_levels-IsCliff market token jump gap [] = raises
  analyze_levels-IsCliff market token jump gap (thin ∷ rest) =
      find_cliff-IsCliff market token jump gap [] thin rest

  -- If the scanner reports an opportunity, then the levels to buy and the cliff after them begin
  -- the first ten asks. The cliff's dollar value is over that of the level before it by the jump
  -- that is reported, which is at least the minimum, and their prices are apart by at least the
  -- minimal gap. The average price of the levels to buy exists and is below the resale price.
  pub analyze_order_book-IsCliff :
      (market : Market F) (token : Token F) (order_book : OrderBook F) (jump gap : F)
      → Ensures
          (IsCliff jump gap (map with_value (take 10 order_book.asks)))
          (analyze_order_book market token order_book jump gap)
  unfolding analyze_order_book
  analyze_order_book-IsCliff market token order_book jump gap =
      analyze_levels-IsCliff market token jump gap (map with_value (take 10 order_book.asks))
