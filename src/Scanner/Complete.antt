-- ===== src/Scanner/Complete.antt =====
-- That no cliff is passed over.
use pmt.Prelude.{◌≡◌, refl, Option, none, some, List, [], ◌∷◌, ◌++◌, map, take, append_assoc}
use mathlib.Core.Path.{subst}
use pmt.Numeric.{Numeric}
use pmt.Scanner.{
  Token, Market, OrderBook, ValuedLevel, VolumeCliffOpportunity, with_value, or_else, cliff_at,
  find_cliff, analyze_levels, analyze_order_book,
}

or_else-none_left : {A : Type 0} (o p : Option A) → or_else o p ≡ none → o ≡ none
or_else-none_left none p h = refl
or_else-none_left (some a) p h = h

or_else-none_right : {A : Type 0} (o p : Option A) → or_else o p ≡ none → p ≡ none
or_else-none_right none p h = h
or_else-none_right (some a) p h = cc

module _ {F : Type 0} ⦃f : Numeric F⦄ (market : Market F) (token : Token F) (jump gap : F) where
  -- The search, after the levels `before`.
  search : List (ValuedLevel F) → List (ValuedLevel F) → Option (VolumeCliffOpportunity F)
  search before [] = none
  search before (thin ∷ rest) = find_cliff market token jump gap before thin rest

  search-none :
      (pre before : List (ValuedLevel F)) (thin cliff : ValuedLevel F) (post : List (ValuedLevel F))
      → search before (pre ++ (thin ∷ cliff ∷ post)) ≡ none
      → cliff_at market token jump gap (before ++ (pre ++ (thin ∷ []))) thin cliff ≡ none
  unfolding search find_cliff
  search-none [] before thin cliff post h = or_else-none_left _ _ h
  search-none (p ∷ []) before thin cliff post h =
      subst (λ levels. cliff_at market token jump gap levels thin cliff ≡ none)
        (append_assoc before (p ∷ []) (thin ∷ []))
        (search-none [] (before ++ (p ∷ [])) thin cliff post (or_else-none_right _ _ h))
  search-none (p ∷ q ∷ pre) before thin cliff post h =
      subst (λ levels. cliff_at market token jump gap levels thin cliff ≡ none)
        (append_assoc before (p ∷ []) (q ∷ (pre ++ (thin ∷ []))))
        (search-none (q ∷ pre) (before ++ (p ∷ [])) thin cliff post (or_else-none_right _ _ h))

  analyze_levels-none :
      (levels : List (ValuedLevel F))
      → analyze_levels market token jump gap levels ≡ none
      → search [] levels ≡ none
  unfolding search analyze_levels
  analyze_levels-none [] h = refl
  analyze_levels-none (thin ∷ rest) h = h

  -- Where the analysis of a book finds nothing, no two neighbouring levels among its first ten asks
  -- are a cliff, with the levels up to the first of the two as those that are bought.
  pub analyze_order_book-none :
      (order_book : OrderBook F) (pre : List (ValuedLevel F)) (thin cliff : ValuedLevel F)
      (post : List (ValuedLevel F))
      → analyze_order_book market token order_book jump gap ≡ none
      → map with_value (take 10 order_book.asks) ≡ pre ++ (thin ∷ cliff ∷ post)
      → cliff_at market token jump gap (pre ++ (thin ∷ [])) thin cliff ≡ none
  unfolding analyze_order_book
  analyze_order_book-none order_book pre thin cliff post h e = search-none pre [] thin cliff post (
      subst (λ levels. search [] levels ≡ none) e
        (analyze_levels-none (map with_value (take 10 order_book.asks)) h))
