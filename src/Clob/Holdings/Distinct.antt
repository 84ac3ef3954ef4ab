-- ===== src/Clob/Holdings/Distinct.antt =====
-- Which tokens are looked up.
use Prim.Native.Nat.{zero, suc, ◌-◌, ◌≤◌}
use text.Mathlib.Text.{◌==◌}
use mathlib.Core.List.{append-nil}
use pmt.Prelude.{
  ℕ, String, Bool, true, false, ◌≡◌, refl, ap, ◌∙◌, List, [], ◌∷◌, ◌++◌, take, length, leb,
  length-append, append_assoc, if◌then◌else◌, ◌||◌, arith, Bool-cases, inl, inr,
}
use pmt.Dict.{Dict, lookup, insert}
use pmt.Dict.Laws.{found_after_insert}
use pmt.Clob.Holdings.{Trade, Meta, meta_of, is_some, note_trade, meta_loop}

-- The first trade of each token, apart from those that have been seen.
pub firsts : (String → Bool) → List Trade → Dict Meta
firsts seen [] = []
firsts seen (t ∷ trades) =
    let rest = firsts (λ id. t.asset_id == id || seen id) trades in
    let others = firsts seen trades in
    if seen t.asset_id then others else (t.asset_id, meta_of t) ∷ rest

insert_new :
    (key : String) (m : Meta) (d : Dict Meta)
    → is_some (lookup key d) ≡ false
    → insert key m d ≡ d ++ ((key, m) ∷ [])
unfolding insert lookup
insert_new key m [] h = refl
insert_new key m ((k, v) ∷ d) h = elim (Bool-cases (k == key)) [
  | inl e ↦ absurd (ground arith)
  | inr e ↦ rw e (ap (λ t. (k, v) ∷ t) (insert_new key m d (rw e at h)))
]

seen_after_insert :
    (key id : String) (m : Meta) (d : Dict Meta)
    → is_some (lookup id (insert key m d)) ≡ (key == id || is_some (lookup id d))
seen_after_insert key id m d = rw (found_after_insert d id key m) (ground arith)

take-nil : {A : Type 0} (n : ℕ) → take {A = A} n [] ≡ []
take-nil zero = refl
take-nil (suc n) = refl

full_length : (m n : ℕ) → leb m n ≡ true → m - n ≡ 0
full_length m n h = ground arith

room_length : (m n : ℕ) → leb m n ≡ false → m - n ≡ suc (m - suc n)
room_length m n h = ground arith

module _ (t : Trade) (d : Dict Meta) (new : is_some (lookup t.asset_id d) ≡ false) where
  length_of_added : length (insert t.asset_id (meta_of t) d) ≡ suc (length d)
  length_of_added =
      ap length (insert_new t.asset_id (meta_of t) d new)
      ∙ omega (arith, length-append d ((t.asset_id, meta_of t) ∷ []))

  added_length : {n : ℕ} → suc (length d) ≤ n → length (insert t.asset_id (meta_of t) d) ≤ n
  added_length h = omega (arith, length_of_added)

  added :
      (n : ℕ) (rest : Dict Meta)
      → insert t.asset_id (meta_of t) d ++ take (n - length (insert t.asset_id (meta_of t) d)) rest
        ≡ d ++ ((t.asset_id, meta_of t) ∷ take (n - suc (length d)) rest)
  added n rest =
      rw (length_of_added, insert_new t.asset_id (meta_of t) d new)
        (append_assoc d ((t.asset_id, meta_of t) ∷ []) (take (n - suc (length d)) rest))

meta_loop-firsts :
    (max_tokens : ℕ) (trades : List Trade) (d : Dict Meta) (seen : String → Bool)
    → length d ≤ max_tokens
    → ((id : String) → is_some (lookup id d) ≡ seen id)
    → meta_loop max_tokens trades d ≡ d ++ take (max_tokens - length d) (firsts seen trades)
unfolding meta_loop firsts note_trade
meta_loop-firsts max_tokens [] d seen h same =
    rw (take-nil (max_tokens - length d), append-nil d) refl
meta_loop-firsts max_tokens (t ∷ trades) d seen h same =
    elim (Bool-cases (leb max_tokens (length d))) [
      | inl full ↦ rw (full, full_length max_tokens (length d) full, append-nil d) refl
      | inr room ↦ rw room (elim (Bool-cases (seen t.asset_id)) [
        | inl old ↦ rw (same t.asset_id, old) (meta_loop-firsts max_tokens trades d seen h same)
        | inr new ↦
            rw (same t.asset_id, new, room_length max_tokens (length d) room)
              (meta_loop-firsts max_tokens trades (insert t.asset_id (meta_of t) d)
                  (λ id. t.asset_id == id || seen id)
                  (added_length t d (same t.asset_id ∙ new) (ground arith))
                  (λ id.
                    seen_after_insert t.asset_id id (meta_of t) d
                    ∙ ap (λ b. t.asset_id == id || b) (same id))
                ∙ added t d (same t.asset_id ∙ new) _ _)
      ])
    ]

-- The tokens that `positions` looks up are those of the first trades of the different tokens, in the
-- order of the trades, up to `max_tokens` of them: the loop that collects them has that result.
pub meta_loop-take :
    (max_tokens : ℕ) (trades : List Trade)
    → meta_loop max_tokens trades [] ≡ take max_tokens (firsts (λ id. false) trades)
unfolding lookup
meta_loop-take max_tokens trades =
    meta_loop-firsts max_tokens trades [] (λ id. false) (omega arith) (λ id. refl)
    ∙ ap (λ n. take n (firsts (λ id. false) trades)) (omega arith)
