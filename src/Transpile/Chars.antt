-- ===== src/Transpile/Chars.antt =====
-- The operations of Python on one text that pmstrat/pmstrat/transpile.py uses, a character at a time.
-- Upper and lower case are those of the letters A to Z.
use Prim.Native.Nat.{ℕ, zero, suc, ◌-◌}
use Prim.Native.Char.{Char, code}
use Prim.Native.String.{String, [], ◌∷◌, ◌++◌, char_at, len}
use text.Mathlib.Text.{starts_with}
use mathlib.Core.Bool.{Bool, true, false, ◌&&◌}
use pmt.Prelude.Tests.{if◌then◌else◌, leb}
use pmt.Strategies.Words.{lower_char}

-- `text.replace(old, new)` with a non-empty `old`, after `skip` more characters of one that is found, which is
-- of ASCII letters.
unfoldable pub replace_after : ℕ → String → String → String → String
replace_after skip old new [] = []
replace_after (suc skip) old new (c ∷ s) = replace_after skip old new s
replace_after zero old new (c ∷ s) = elim (starts_with (c ∷ s) old) [
  | true ↦ new ++ replace_after (len old - 1) old new s
  | false ↦ c ∷ replace_after zero old new s
]

-- `text.lstrip()`, for the white space that generated code begins with.
unfoldable pub lstrip : String → String
lstrip [] = []
lstrip (c ∷ s) = elim (leb (code c) 32) [ true ↦ lstrip s | false ↦ c ∷ s ]

upper_char : Char → Char
upper_char c =
    if leb 97 (code c) && leb (code c) 122
    then char_at "ABCDEFGHIJKLMNOPQRSTUVWXYZ" (code c - 97)
    else c

-- `''.join(word.capitalize() for word in name.split('_'))`; `first` says that a word begins.
unfoldable pub pascal : Bool → String → String
unfolding upper_char
pascal first [] = []
pascal first (c ∷ s) =
    let word = pascal true s in
    let rest = pascal false s in
    if leb (code c) 95 && leb 95 (code c)
    then word
    else (if first then upper_char c else lower_char c) ∷ rest
