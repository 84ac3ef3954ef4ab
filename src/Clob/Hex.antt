-- ===== src/Clob/Hex.antt =====
-- The hexadecimal numbers that `usdc_balance`, `token_balance`, `_normalize_condition_id` and the
-- others of clob.py write and read: Python's `hex`, `int(_, 16)`, `int(_)` and `str.zfill`. No white
-- space, sign or underscore stands in a text that `int` reads, and no letter but those of ASCII.
pub mod RoundTrip
use Prim.Native.Nat.{ℕ, zero, suc, ◌+◌, ◌-◌, ◌*◌, ◌/◌, ◌%◌}
use Prim.Native.Char.{Char, code}
use Prim.Native.String.{String, [], ◌∷◌, char_at}
use pmt.Prelude.{Bool, true, false, Option, none, some, if◌then◌else◌, ltb, leb, ◌&&◌, ◌||◌, ◌>>=◌}
use pmt.Strategies.Words.{lower}

abbrev pub is_code : ℕ → Char → Bool
is_code n c = leb n (code c) && leb (code c) n

-- The value of a digit, by its code.
unfoldable pub hex_value : ℕ → Option ℕ
hex_value c =
    if leb 48 c && leb c 57
    then some (c - 48)
    else if leb 97 c && leb c 102
    then some (c - 87)
    else if leb 65 c && leb c 70
    then some (c - 55)
    else none

unfoldable pub from_digits : ℕ → String → Option ℕ
from_digits n [] = some n
from_digits n (c ∷ s) = do d ← hex_value (code c); from_digits (n * 16 + d) s

-- `text[2:] if text.startswith("0x") else text`
unfoldable pub without_0x : String → String
without_0x [] = []
without_0x (c ∷ []) = c ∷ []
without_0x (c ∷ d ∷ s) = if is_code 48 c && is_code 120 d then s else c ∷ d ∷ s

-- `int(text, 16)`, or none where it raises ValueError. It takes a prefix 0x or 0X.
unfoldable pub int_hex : String → Option ℕ
int_hex [] = none
int_hex (c ∷ []) = from_digits 0 (c ∷ [])
int_hex (c ∷ d ∷ []) = from_digits 0 (c ∷ d ∷ [])
int_hex (c ∷ d ∷ e ∷ s) =
    if is_code 48 c && (is_code 120 d || is_code 88 d)
    then from_digits 0 (e ∷ s)
    else from_digits 0 (c ∷ d ∷ e ∷ s)

-- `int(text)` of decimal digits.
unfoldable pub from_decimal : ℕ → String → Option ℕ
from_decimal n [] = some n
from_decimal n (c ∷ s) =
    if leb 48 (code c) && leb (code c) 57 then from_decimal (n * 10 + (code c - 48)) s else none

unfoldable pub int_decimal : String → Option ℕ
unfolding from_decimal
int_decimal [] = none
int_decimal (c ∷ s) = from_decimal 0 (c ∷ s)

-- `int(text)`, for digits after a sign or none: the number, or that it is negative.
pub data Integer : Type 0 where
  natural : ℕ → Integer
  negative : Integer

abbrev pub negated : Option ℕ → Option Integer
negated none = none
negated (some zero) = some (natural 0)
negated (some (suc n)) = some negative

abbrev pub natural_of : Option ℕ → Option Integer
natural_of none = none
natural_of (some n) = some (natural n)

unfoldable pub to_int : String → Option Integer
to_int [] = none
to_int (c ∷ s) = if is_code 45 c then negated (int_decimal s) else natural_of (int_decimal (c ∷ s))

abbrev pub digit : ℕ → Char
digit d = char_at "0123456789abcdef" d

-- `hex(n)[2:]`, before the digits `rest`, on fuel over `n`.
unfoldable pub hex_digits : ℕ → ℕ → String → String
hex_digits zero n rest = rest
hex_digits (suc fuel) n rest =
    let more = hex_digits fuel (n / 16) (digit (n % 16) ∷ rest) in
    if ltb n 16 then digit n ∷ rest else more

-- `len(text)`
unfoldable pub width : String → ℕ
width [] = 0
width (c ∷ s) = suc (width s)

-- `n` zeros before a text.
unfoldable pub zeros : ℕ → String → String
zeros zero s = s
zeros (suc n) s = "0" ∷ zeros n s

abbrev pub is_sign : Char → Bool
is_sign c = is_code 43 c || is_code 45 c

-- `text.zfill(w)`, which leaves a sign in front.
unfoldable pub zfill : ℕ → String → String
zfill w [] = zeros w []
zfill w (c ∷ s) =
    if is_sign c then c ∷ zeros (w - suc (width s)) s else zeros (w - suc (width s)) (c ∷ s)

-- `text[2:]`
unfoldable pub drop_two : String → String
drop_two [] = []
drop_two (c ∷ []) = []
drop_two (c ∷ d ∷ s) = s

-- `hex(n)[2:].zfill(64)`
unfoldable pub word : ℕ → String
word n = zfill 64 (hex_digits (suc n) n "")

-- `self._funder[2:].lower().zfill(64)`
unfoldable pub address_word : String → String
address_word funder = zfill 64 (lower (drop_two funder))

-- `_normalize_condition_id`
unfoldable pub normalize_condition_id : String → String
normalize_condition_id condition_id = zfill 64 (lower (without_0x condition_id))
