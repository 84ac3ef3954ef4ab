-- ===== src/Transpile/Registry/Order.antt =====
-- The order of texts.
use Prim.Native.String.{[], ◌∷◌}
use pmt.Prelude.{String, ◌≡◌, refl, true, false, arith}
use pmt.Transpile.Registry.{text_less}

pub text_less_asymm : (s t : String) → text_less s t ≡ true → text_less t s ≡ false
unfolding text_less
text_less_asymm [] [] h = refl
text_less_asymm [] (d ∷ t) h = refl
text_less_asymm (c ∷ s) [] h = cc
text_less_asymm (c ∷ s) (d ∷ t) h = ground (arith, text_less_asymm s t)

pub text_less_trans :
    (a b c : String) → text_less b a ≡ false → text_less c b ≡ false → text_less c a ≡ false
unfolding text_less
text_less_trans [] b [] h k = refl
text_less_trans [] [] (e ∷ c) h k = refl
text_less_trans [] (d ∷ b) (e ∷ c) h k = refl
text_less_trans (x ∷ a) [] c h k = cc
text_less_trans (x ∷ a) (d ∷ b) [] h k = cc
text_less_trans (x ∷ a) (d ∷ b) (e ∷ c) h k = ground (arith, text_less_trans a b c)
