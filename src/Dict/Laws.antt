-- ===== src/Dict/Laws.antt =====
-- Reading a dictionary after a write, and properties of all its values.
use text.Mathlib.Text.{◌==◌}
use text.Mathlib.TextEquality.{eq_iff}
use text.Mathlib.TextPositions.{eq_refl}
use mathlib.Core.Path.{subst}
use mathlib.Core.Option.{some-injective}
use pmt.Prelude.{
  String, sym, ap, ◌∙◌, ◌≡◌, refl, some, [], ◌∷◌, if◌then◌else◌, arith, Bool-cases, inl, inr,
}
use pmt.Dict.{Dict, lookup, insert, get_or, AllValues}

module _ {ℓ} {V : Type ℓ} where
  -- `d[key] = value`, then `d.get(wanted)`.
  pub found_after_insert :
      (d : Dict V) (wanted key : String) (value : V)
      → lookup wanted (insert key value d) ≡ (if key == wanted then some value else lookup wanted d)
  unfolding insert lookup
  found_after_insert [] wanted key value = refl
  found_after_insert (entry ∷ d) wanted key value =
      let rest = found_after_insert d wanted key value in
      ground (arith, eq_iff entry.0 key, eq_iff entry.0 wanted, eq_iff key wanted, rest)

  pub AllValues-insert {κ} :
      (P : V → Type κ) (k : String) (v : V) (m : Dict V)
      → AllValues P m
      → P v
      → AllValues P (insert k v m)
  unfolding insert
  AllValues-insert P k v [] h p = (p, tt)
  AllValues-insert P k v ((i, w) ∷ m) h p = elim (Bool-cases (i == k)) [
    | inl e ↦ rw e (p, h.1)
    | inr e ↦ rw e (h.0, AllValues-insert P k v m h.1 p)
  ]

  -- The value that is found, or the default, has the property.
  pub AllValues-get_or {κ} :
      (P : V → Type κ) (k : String) (v : V) (m : Dict V)
      → AllValues P m
      → P v
      → P (get_or v (lookup k m))
  unfolding lookup
  AllValues-get_or P k v [] h p = p
  AllValues-get_or P k v ((i, w) ∷ m) h p = elim (Bool-cases (i == k)) [
    | inl e ↦ rw e h.0
    | inr e ↦ rw e (AllValues-get_or P k v m h.1 p)
  ]

  pub AllValues-lookup {κ} :
      (P : V → Type κ) (k : String) {v : V} (m : Dict V) → AllValues P m → lookup k m ≡ some v → P v
  unfolding lookup
  AllValues-lookup P k [] h e = cc
  AllValues-lookup P k {v} ((i, w) ∷ m) h e = elim (Bool-cases (i == k)) [
    | inl same ↦ subst P (some-injective _ _ (rw (same, lookup) at e)) h.0
    | inr other ↦ AllValues-lookup P k m h.1 (rw (other, lookup) at e)
  ]

  pub lookup-insert_self :
      (key : String) (value : V) (d : Dict V) → lookup key (insert key value d) ≡ some value
  lookup-insert_self key value d = simp (found_after_insert d, eq_refl)

  -- What an insertion leaves at any key.
  pub lookup-insert_other :
      (key wanted : String) (value : V) (d : Dict V)
      → lookup wanted (insert key value d)
        ≡ (if key == wanted then lookup key (insert key value d) else lookup wanted d)
  lookup-insert_other key wanted value d =
      found_after_insert d wanted key value
      ∙ ap (λ o. if key == wanted then o else lookup wanted d)
          (sym (lookup-insert_self key value d))
