-- ===== src/Prelude/Dict.antt =====
-- Go's maps with text keys as association lists; reads, writes and deletes, with their laws.

use mathlib.Core.Path.{◌≡◌}
use mathlib.Core.Option.{Option, none, some}
use mathlib.Core.List.{List, [], ◌∷◌}
use native.Mathlib.Omega.{arith}
use package.dbaas.Prelude.Tests.{if◌then◌else◌}
use package.dbaas.Prelude.Text.{Text, ◌==◌, eq_iff, eq_refl}

-- A map, nil or not: a nil map reads as the empty one.
abbrev pub Dict {ℓ} : Type ℓ → Type ℓ
Dict V = List (Text × V)

module _ {ℓ} {V : Type ℓ} where
  -- `delete(m, k)`
  unfoldable pub erase : Text → Dict V → Dict V
  erase key [] = []
  erase key ((other, w) ∷ m) =
      let rest = erase key m in if key == other then rest else (other, w) ∷ rest

  -- `m[k] = v`
  unfoldable pub insert : Text → V → Dict V → Dict V
  unfolding erase
  insert key value m = (key, value) ∷ erase key m

  -- `v, ok := m[k]`
  unfoldable pub lookup : Text → Dict V → Option V
  lookup key [] = none
  lookup key ((other, w) ∷ m) = let rest = lookup key m in if key == other then some w else rest

  pub lookup-erase :
      (key read_key : Text) (m : Dict V)
      → lookup read_key (erase key m) ≡ (if read_key == key then none else lookup read_key m)
  unfolding erase lookup
  lookup-erase key read_key [] = ground arith
  lookup-erase key read_key ((other, w) ∷ m) = ground (
    arith,
    eq_iff read_key key,
    eq_iff key other,
    eq_iff read_key other,
    lookup-erase key read_key m,
  )

  pub lookup-insert :
      (key read_key : Text) (value : V) (m : Dict V)
      → lookup read_key (insert key value m)
        ≡ (if read_key == key then some value else lookup read_key m)
  unfolding insert lookup
  lookup-insert key read_key value m = ground (arith, lookup-erase key read_key m)

-- `m[k]` of a `map[string]string`: a missing key reads as the empty text.
unfoldable pub read : Text → Dict Text → Text
unfolding lookup
read k m = elim (lookup k m) [ some v ↦ v | none ↦ [] ]

pub read-insert : (k v : Text) (m : Dict Text) → read k (insert k v m) ≡ v
unfolding read
read-insert k v m = ground (arith, lookup-insert k k v m, eq_refl k)
