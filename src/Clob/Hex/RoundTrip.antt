-- ===== src/Clob/Hex/RoundTrip.antt =====
-- The words of a contract call: what they decode to, and their width.
use Prim.Native.Nat.{zero, suc, ◌+◌, ◌-◌, ◌*◌, ◌/◌, ◌%◌, ◌^◌, ◌<◌, ◌≤◌}
use Prim.Native.Char.{Char, code}
use Prim.Native.String.{[], ◌∷◌, char_at}
use pmt.Prelude.{
  ℕ, String, Bool, true, false, ◌≡◌, ◌≢◌, refl, ap, ◌∙◌, Option, none, some, ltb, leb, ◌&&◌, ◌||◌,
  ◌>>=◌, arith, Bool-cases, inl, inr,
}
use mathlib.Core.Path.{fun_ext}
use pmt.Strategies.Words.{lower, lower_char}
use pmt.Clob.Hex.{
  hex_value, from_digits, without_0x, int_hex, digit, hex_digits, width, zeros, zfill, word,
  normalize_condition_id, is_code, is_sign,
}

-- A test of the numbers below a bound.
all_below : ℕ → (ℕ → Bool) → Bool
all_below zero p = true
all_below (suc n) p = p n && all_below n p

all_below-at : (n : ℕ) (p : ℕ → Bool) (x : ℕ) → all_below n p ≡ true → x < n → p x ≡ true
unfolding all_below
all_below-at zero p x h k = absurd (omega arith)
all_below-at (suc n) p x h k = ground (arith, all_below-at n p x)

same : Option ℕ → Option ℕ → Bool
same none none = true
same none (some b) = false
same (some a) none = false
same (some a) (some b) = leb a b && leb b a

same-eq : (a b : Option ℕ) → same a b ≡ true → a ≡ b
unfolding same
same-eq none none h = refl
same-eq none (some b) h = cc
same-eq (some a) none h = cc
same-eq (some a) (some b) h = ground arith

digit_table : all_below 16 (λ d. same (hex_value (code (digit d))) (some d)) ≡ true
unfolding all_below same hex_value
digit_table = refl

hex_value-digit : (d : ℕ) → d < 16 → hex_value (code (digit d)) ≡ some d
hex_value-digit d h =
    same-eq _ _ (all_below-at 16 (λ d. same (hex_value (code (digit d))) (some d)) d digit_table h)

from_digits-digit :
    (n d : ℕ) (s : String) → d < 16 → from_digits n (digit d ∷ s) ≡ from_digits (n * 16 + d) s
unfolding from_digits
from_digits-digit n d s h = rw (hex_value-digit d h) refl

-- The digits that are written decode to the number, with enough fuel.
from_digits-hex_digits :
    (fuel n : ℕ) (rest : String)
    → n < fuel
    → from_digits 0 (hex_digits fuel n rest) ≡ from_digits n rest
unfolding hex_digits
from_digits-hex_digits zero n rest h = absurd (omega arith)
from_digits-hex_digits (suc fuel) n rest h = elim (Bool-cases (ltb n 16)) [
  | inl e ↦
      rw e (from_digits-digit 0 n rest (ground arith) ∙ ap (λ t. from_digits t rest) (omega arith))
  | inr e ↦ rw e (
      from_digits-hex_digits fuel (n / 16) (digit (n % 16) ∷ rest) (ground arith)
      ∙ from_digits-digit (n / 16) (n % 16) rest (omega arith)
      ∙ ap (λ t. from_digits t rest) (omega arith))
]

from_digits-zeros : (k : ℕ) (s : String) → from_digits 0 (zeros k s) ≡ from_digits 0 s
unfolding zeros from_digits hex_value
from_digits-zeros zero s = refl
from_digits-zeros (suc k) s = from_digits-zeros k s

width-zeros : (k : ℕ) (s : String) → width (zeros k s) ≡ k + width s
unfolding zeros width
width-zeros zero s = omega arith
width-zeros (suc k) s = omega (arith, width-zeros k s)

-- A text of digits begins with no sign, and its second character is no x.
not-is_sign : (n m : ℕ) (c : Char) (s : String) → from_digits n (c ∷ s) ≡ some m → is_sign c ≡ false
unfolding from_digits hex_value
not-is_sign n m c s h = ground arith

not-is_x :
    (n m : ℕ) (c d : Char) (s : String)
    → from_digits n (c ∷ d ∷ s) ≡ some m
    → (is_code 120 d || is_code 88 d) ≡ false
unfolding from_digits hex_value
not-is_x n m c d s h = ground arith

int_hex_digits : (n : ℕ) (s : String) → from_digits 0 s ≡ some n → s ≢ [] → int_hex s ≡ some n
unfolding int_hex
int_hex_digits n [] h e = absurd (e refl)
int_hex_digits n (c ∷ []) h e = h
int_hex_digits n (c ∷ d ∷ []) h e = h
int_hex_digits n (c ∷ d ∷ e ∷ s) h ne = ground (arith, not-is_x 0 n c d (e ∷ s) h)

zfill_digits : (w n : ℕ) (s : String) → from_digits 0 s ≡ some n → zfill w s ≡ zeros (w - width s) s
unfolding zfill width
zfill_digits w n [] h = ap (λ k. zeros k []) (omega arith)
zfill_digits w n (c ∷ s) h = rw (not-is_sign 0 n c s h) refl

-- Padding keeps the value, and makes the width.
zfill_word :
    (w n : ℕ) (s : String)
    → from_digits 0 s ≡ some n
    → width s ≤ w
    → (width (zfill w s) ≡ w) × (from_digits 0 (zfill w s) ≡ some n)
zfill_word w n s h k =
    rw (zfill_digits w n s h)
      (omega (arith, width-zeros (w - width s) s), from_digits-zeros (w - width s) s ∙ h)

pow16 : ℕ → ℕ
pow16 zero = 1
pow16 (suc k) = 16 * pow16 k

-- A number below 16 ^ (k + 1) has at most k + 1 digits.
width-hex_digits :
    (k fuel n : ℕ) (rest : String)
    → n < 16 * pow16 k
    → width (hex_digits fuel n rest) ≤ suc k + width rest
unfolding hex_digits width pow16
width-hex_digits k zero n rest h = omega arith
width-hex_digits zero (suc fuel) n rest h = ground arith
width-hex_digits (suc k) (suc fuel) n rest h =
    let ih = width-hex_digits k fuel (n / 16) (digit (n % 16) ∷ rest) (omega arith) in ground arith

ne-nil_of_width : (k : ℕ) (s : String) → width s ≡ suc k → s ≢ []
unfolding width
ne-nil_of_width k s h e = absurd (omega (arith, ap width e))

int_hex_prefixed :
    (n : ℕ) (s : String) → from_digits 0 s ≡ some n → s ≢ [] → int_hex ("0" ∷ "x" ∷ s) ≡ some n
unfolding int_hex
int_hex_prefixed n [] h e = absurd (e refl)
int_hex_prefixed n (c ∷ s) h e = h

-- The word of 64 digits that `token_balance` writes for a number below 2 ^ 256 is read back by
-- `int(_, 16)` as the same number, with and without the prefix "0x".
pub int_hex-word :
    (n : ℕ)
    → n < 2 ^ 256
    → (width (word n) ≡ 64) × (int_hex (word n) ≡ some n) × (int_hex ("0" ∷ "x" ∷ word n) ≡ some n)
unfolding word pow16 from_digits width
int_hex-word n h =
    let value = from_digits-hex_digits (suc n) n "" (omega arith) in
    let padded =
      zfill_word 64 n (hex_digits (suc n) n "") value
        (width-hex_digits 63 (suc n) n "" (omega arith)) in
    let full = ne-nil_of_width 63 (word n) padded.0 in
    (padded.0, int_hex_digits n (word n) padded.1 full, int_hex_prefixed n (word n) padded.1 full)

lower_table :
    all_below 26
      (λ i. same (hex_value (code (char_at "abcdefghijklmnopqrstuvwxyz" i))) (hex_value (65 + i)))
    ≡ true
unfolding all_below same hex_value
lower_table = refl

-- Lower case letters have the same value.
hex_value-lower_char : (c : Char) → hex_value (code (lower_char c)) ≡ hex_value (code c)
unfolding lower_char
hex_value-lower_char c = elim (Bool-cases (leb 65 (code c) && leb (code c) 90)) [
  | inl e ↦ rw e (
      same-eq _ _ (
        all_below-at 26
          (λ i.
            same (hex_value (code (char_at "abcdefghijklmnopqrstuvwxyz" i))) (hex_value (65 + i)))
          (code c - 65) lower_table (ground arith))
      ∙ ap hex_value (ground arith))
  | inr e ↦ rw e refl
]

from_digits-lower : (n : ℕ) (s : String) → from_digits n (lower s) ≡ from_digits n s
unfolding from_digits lower
from_digits-lower n [] = refl
from_digits-lower n (c ∷ s) =
    rw (hex_value-lower_char c)
      (ap (λ k. hex_value (code c) >>= k) (fun_ext (λ d. from_digits-lower (n * 16 + d) s)))

width-lower : (s : String) → width (lower s) ≡ width s
unfolding width lower
width-lower [] = refl
width-lower (c ∷ s) = ap suc (width-lower s)

without_0x_digits : (n : ℕ) (s : String) → from_digits 0 s ≡ some n → without_0x s ≡ s
unfolding without_0x
without_0x_digits n [] h = refl
without_0x_digits n (c ∷ []) h = refl
without_0x_digits n (c ∷ d ∷ s) h = ground (arith, not-is_x 0 n c d s h)

-- A condition id of at most 64 hexadecimal digits, with or without the prefix "0x" and in capitals or
-- not, becomes one word of 64 digits, of the same value.
pub normalize_condition_id-word :
    (n : ℕ) (digits : String)
    → from_digits 0 digits ≡ some n
    → width digits ≤ 64
    → (width (normalize_condition_id digits) ≡ 64)
      × (int_hex (normalize_condition_id digits) ≡ some n)
      × (normalize_condition_id ("0" ∷ "x" ∷ digits) ≡ normalize_condition_id digits)
unfolding normalize_condition_id without_0x
normalize_condition_id-word n digits h k =
    let padded =
      zfill_word 64 n (lower digits) (from_digits-lower 0 digits ∙ h)
        (omega (arith, width-lower digits)) in
    rw (without_0x_digits n digits h) (
      padded.0,
      int_hex_digits n (zfill 64 (lower digits)) padded.1 (ne-nil_of_width 63 _ padded.0),
      refl,
    )
