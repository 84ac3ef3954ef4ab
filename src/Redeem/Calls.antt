-- ===== src/Redeem/Calls.antt =====
-- Which calls redeem a position.
use Prim.Native.Nat.{zero, suc, ◌+◌, ◌*◌, ◌<◌}
use mathlib.Core.List.{append-nil}
use mathlib.Core.Path.{subst}
use pmt.Prelude.{
  ℕ, sym, String, Bool, true, false, ◌≡◌, refl, ap, ◌∙◌, List, [], ◌∷◌, ◌++◌, length, append_assoc,
  arith, Bool-cases, inl, inr, length-append,
}
use pmt.Numeric.{Numeric}
use pmt.Clob.Rpc.{is_rate_limit}
use pmt.Redeem.{
  ResolvedPosition, Redemption, Relay, Answer, accepted, raised, redemption_of, make, wait,
  after_attempt, attempts, redeem_position, redeem_loop,
}

-- `n` times the same call.
pub repeated : {A : Type 0} → ℕ → A → List A
repeated zero a = []
repeated (suc n) a = a ∷ repeated n a

module _ {F : Type 0} ⦃f : Numeric F⦄ (redeem : Redemption F → ℕ → Answer) where
  -- The k calls from the n-th on are refused for their rate.
  pub AllLimited : Redemption F → ℕ → ℕ → Type 0
  AllLimited call n zero = Unit
  AllLimited call n (suc k) =
      ((text : String) × (redeem call n ≡ raised text) × (is_rate_limit text ≡ true))
      × AllLimited call (suc n) k

  -- How a position is redeemed with at most `left` calls, the first being the n-th, after others.
  pub data IsRedeemed (left : ℕ) (call : Redemption F) (n : ℕ) (calls : List (Redemption F))
      : Bool × Relay F → Type 0 where
    done :
        {s : Relay F} (k : ℕ)
        → k < left
        → AllLimited call n k
        → redeem call (n + k) ≡ accepted
        → s.calls ≡ calls ++ repeated (suc k) call
        → IsRedeemed left call n calls (true, s)
    refused :
        {s : Relay F} (k : ℕ) {text : String}
        → k < left
        → AllLimited call n k
        → redeem call (n + k) ≡ raised text
        → is_rate_limit text ≡ false
        → s.calls ≡ calls ++ repeated (suc k) call
        → IsRedeemed left call n calls (false, s)
    exhausted :
        {s : Relay F}
        → AllLimited call n left
        → s.calls ≡ calls ++ repeated left call
        → IsRedeemed left call n calls (false, s)

  answer_at :
      (call : Redemption F) (n k : ℕ) {a : Answer}
      → redeem call (suc n + k) ≡ a
      → redeem call (n + suc k) ≡ a
  answer_at call n k h = ap (redeem call) (omega arith) ∙ h

  one_more :
      (calls : List (Redemption F)) (call : Redemption F) (k : ℕ)
      → (calls ++ (call ∷ [])) ++ repeated k call ≡ calls ++ repeated (suc k) call
  unfolding repeated
  one_more calls call k = append_assoc calls (call ∷ []) (repeated k call)

  -- A call that is refused for its rate, and what follows.
  limited-IsRedeemed :
      {left : ℕ} {call : Redemption F} {n : ℕ} {calls : List (Redemption F)} {text : String}
      {o : Bool × Relay F}
      → redeem call n ≡ raised text
      → is_rate_limit text ≡ true
      → IsRedeemed left call (suc n) (calls ++ (call ∷ [])) o
      → IsRedeemed (suc left) call n calls o
  unfolding AllLimited
  limited-IsRedeemed {call} {n} {calls} {text} h l (done k b all a made) =
      done (suc k) (omega arith) ((text, h, l), all) (answer_at call n k a)
        (made ∙ one_more calls call (suc k))
  limited-IsRedeemed {call} {n} {calls} {text} h l (refused k b all a f made) =
      refused (suc k) (omega arith) ((text, h, l), all) (answer_at call n k a) f
        (made ∙ one_more calls call (suc k))
  limited-IsRedeemed {left} {call} {calls} {text} h l (exhausted all made) =
      exhausted ((text, h, l), all) (made ∙ one_more calls call left)

  after_attempt-IsRedeemed :
      (left attempt : ℕ) (call : Redemption F) (n : ℕ) (r : Relay F) (a : Answer)
      (rest : Relay F → Bool × Relay F)
      → redeem call n ≡ a
      → ((s : Relay F)
          → s.calls ≡ r.calls ++ (call ∷ [])
          → IsRedeemed left call (suc n) (r.calls ++ (call ∷ [])) (rest s))
      → IsRedeemed (suc left) call n r.calls (after_attempt attempt a rest (make call r))
  unfolding after_attempt AllLimited repeated
  after_attempt-IsRedeemed left attempt call n r accepted rest h ih =
      done 0 (omega arith) tt (ap (redeem call) (omega arith) ∙ h) refl
  after_attempt-IsRedeemed left attempt call n r (raised text) rest h ih =
      elim (Bool-cases (is_rate_limit text)) [
        | inl l ↦ rw l (limited-IsRedeemed h l (ih (wait (15 * suc attempt) (make call r)) refl))
        | inr l ↦ rw l (refused 0 (omega arith) tt (ap (redeem call) (omega arith) ∙ h) l refl)
      ]

  attempts-IsRedeemed :
      (left attempt n : ℕ) (call : Redemption F) (calls : List (Redemption F)) (r : Relay F)
      → r.calls ≡ calls
      → length calls ≡ n
      → IsRedeemed left call n calls (attempts redeem left attempt call r)
  unfolding attempts AllLimited repeated
  attempts-IsRedeemed zero attempt n call calls r h l = exhausted tt (h ∙ sym (append-nil calls))
  attempts-IsRedeemed (suc left) attempt n call calls r h l =
      subst (λ c. IsRedeemed (suc left) call n c (attempts redeem (suc left) attempt call r)) h
        (after_attempt-IsRedeemed left attempt call n r (redeem call (length r.calls))
          (attempts redeem left (suc attempt) call) (ap (redeem call) (sym (ap length h ∙ l)))
          (λ s g.
            attempts-IsRedeemed left (suc attempt) (suc n) call (r.calls ++ (call ∷ [])) s g
              (length-append r.calls (call ∷ []) ∙ omega (arith, ap length h))))

  -- Redeeming a position makes at most three calls, all of them the same one: it succeeds with the first that
  -- is accepted after calls that were refused for their rate, and fails with the first that is refused for
  -- another reason, or after three that were refused for their rate.
  pub redeem_position-IsRedeemed :
      (pos : ResolvedPosition F) (r : Relay F)
      → IsRedeemed 3
          (redemption_of pos)
          (length r.calls)
          r.calls
          (redeem_position redeem false pos r)
  unfolding redeem_position
  redeem_position-IsRedeemed pos r =
      attempts-IsRedeemed 3 0 (length r.calls) (redemption_of pos) r.calls r refl refl

  -- A dry run makes no call, sleeps for no time, and counts every position as a success.
  pub redeem_loop-dry_run :
      (ps : List (ResolvedPosition F)) (r : Relay F) → redeem_loop redeem true ps r ≡ (length ps, r)
  unfolding redeem_loop redeem_position
  redeem_loop-dry_run [] r = refl
  redeem_loop-dry_run (pos ∷ []) r = refl
  redeem_loop-dry_run (pos ∷ next ∷ ps) r = rw (redeem_loop-dry_run (next ∷ ps) r) refl
