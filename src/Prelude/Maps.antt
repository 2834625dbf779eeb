-- ===== src/Prelude/Maps.antt =====
-- Go maps with string keys as association lists. A write replaces the first entry of the key.
use Prim.Native.String.{String}
use mathlib.Core.Path.{◌≡◌, refl}
use mathlib.Core.Option.{Option, none, some}
use mathlib.Core.List.{List, [], ◌∷◌}
use native.Mathlib.Omega.{arith}
unfoldable use text.Mathlib.Text.{◌==◌ as str_eq}
use text.Mathlib.TextEquality.{eq_iff}
use uknow.Prelude.Tests.{if◌then◌else◌}

abbrev pub StringMap {ℓ} : Type ℓ → Type ℓ
StringMap V = List (String × V)

module _ {ℓ} {V : Type ℓ} where
  unfoldable pub lookup : String → StringMap V → Option V
  lookup key [] = none
  lookup key ((name, value) ∷ entries) = if str_eq name key then some value else lookup key entries

  unfoldable pub insert : String → V → StringMap V → StringMap V
  insert key new [] = (key, new) ∷ []
  insert key new ((name, value) ∷ entries) =
      if str_eq name key then (key, new) ∷ entries else (name, value) ∷ insert key new entries

  -- `m[k]` for a key that may be missing: the zero value `d` of the value type.
  unfoldable pub lookup_or : V → String → StringMap V → V
  unfolding lookup
  lookup_or missing key m = elim (lookup key m) [ none ↦ missing | some value ↦ value ]

  pub lookup-insert :
      (key other : String) (new : V) (m : StringMap V)
      → lookup other (insert key new m) ≡ (if str_eq key other then some new else lookup other m)
  unfolding insert lookup
  lookup-insert key other new [] = refl
  lookup-insert key other new ((name, value) ∷ entries) = ground (
    arith,
    lookup-insert key other new entries,
    eq_iff name other,
    eq_iff name key,
    eq_iff key other,
  )

  pub lookup_or-insert :
      (missing : V) (key other : String) (new : V) (m : StringMap V)
      → lookup_or missing other (insert key new m)
        ≡ (if str_eq key other then new else lookup_or missing other m)
  unfolding lookup_or
  lookup_or-insert missing key other new m = ground (arith, lookup-insert key other new m)
