-- ===== src/Strategies/Words.antt =====
-- The operations on text that pmstrat/pmstrat/strategies/sure_bets.py uses. `lower` changes the
-- letters A to Z, and no other letter.
use Prim.Native.Nat.{◌-◌}
use Prim.Native.Char.{Char, code}
use Prim.Native.String.{String, [], ◌∷◌, char_at}
use text.Mathlib.Text.{find?}
use mathlib.Core.Bool.{Bool, true, false, ◌&&◌}
use mathlib.Core.Option.{none, some}
use pmt.Prelude.Tests.{if◌then◌else◌, leb}

unfoldable pub lower_char : Char → Char
lower_char c =
    if leb 65 (code c) && leb (code c) 90
    then char_at "abcdefghijklmnopqrstuvwxyz" (code c - 65)
    else c

-- `question.lower()`
unfoldable pub lower : String → String
unfolding lower_char
lower [] = []
lower (c ∷ s) = lower_char c ∷ lower s

-- `keyword in question_lower`
abbrev pub contains : String → String → Bool
contains question_lower keyword = elim (find? question_lower keyword) [
  | none ↦ false
  | some i ↦ true
]
