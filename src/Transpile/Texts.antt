-- ===== src/Transpile/Texts.antt =====
-- The operations of Python on lists of texts that pmstrat/pmstrat/transpile.py uses.
use Prim.Native.Nat.{ℕ, zero, suc}
use Prim.Native.String.{String, ◌++◌}
use text.Mathlib.Text.{◌==◌}
use mathlib.Core.Bool.{Bool, false, ◌||◌}
use mathlib.Core.List.{List, [], ◌∷◌}

-- `separator.join(texts)`
unfoldable pub join : String → List String → String
join separator [] = ""
join separator (text ∷ []) = text
join separator (text ∷ (next ∷ texts)) = text ++ separator ++ join separator (next ∷ texts)

-- `"    " * level`
unfoldable pub indent : ℕ → String
indent zero = ""
indent (suc level) = "    " ++ indent level

-- `name in names`, for a set or a list of names.
unfoldable pub has : List String → String → Bool
has [] name = false
has (other ∷ names) name = other == name || has names name

-- `lines + more`
unfoldable pub followed_by : List String → List String → List String
followed_by [] more = more
followed_by (line ∷ lines) more = line ∷ followed_by lines more

-- `"\n".join(lines)`
abbrev pub unlines : List String → String
unlines lines = join "\n" lines
