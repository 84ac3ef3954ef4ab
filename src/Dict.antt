-- ===== src/Dict.antt =====
-- A Python `dict` with string keys: the entries in insertion order, each key at most once.
-- `insert` writes an entry that is there in its place, and appends one that is new.
pub mod Laws
use text.Mathlib.Text.{◌==◌}
use pmt.Prelude.{String, Bool, true, false, Option, none, some, List, [], ◌∷◌, if◌then◌else◌}

abbrev pub Dict {ℓ} : Type ℓ → Type ℓ
Dict V = List (String × V)

module _ {ℓ} {V : Type ℓ} where
  -- `d.get(key)`
  unfoldable pub lookup : String → Dict V → Option V
  lookup key [] = none
  lookup key ((k, v) ∷ d) = if k == key then some v else lookup key d

  -- `d[key] = v`
  unfoldable pub insert : String → V → Dict V → Dict V
  insert key v [] = (key, v) ∷ []
  insert key v ((k, w) ∷ d) = if k == key then (k, v) ∷ d else (k, w) ∷ insert key v d

  -- `d.get(key, default)`
  abbrev pub get_or : V → Option V → V
  get_or default none = default
  get_or default (some v) = v

  -- A property of every value.
  abbrev pub AllValues {κ} : (V → Type κ) → Dict V → Type κ
  AllValues P [] = Unit
  AllValues P ((k, v) ∷ d) = P v × AllValues P d

  -- A property of every entry, with its key.
  abbrev pub AllEntries {κ} : (String → V → Type κ) → Dict V → Type κ
  AllEntries P [] = Unit
  AllEntries P ((k, v) ∷ d) = P k v × AllEntries P d
