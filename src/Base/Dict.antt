-- ===== src/Base/Dict.antt =====
-- A Go map with string keys, as a list of its entries. The program sorts the keys wherever the
-- order of an iteration could be seen.
use thimble.Base.Tests.{if◌then◌else◌}
use thimble.Base.Text.{Bytes, equal, equal_iff, equal_refl, mem}
use mathlib.Core.Path.{◌≡◌, refl}
use mathlib.Core.List.{List, [], ◌∷◌}
use mathlib.Core.Bool.{Bool, true, false}
use mathlib.Core.Option.{Option, none, some}
use native.Mathlib.Omega.{arith}

abbrev pub Dict {ℓ} : Type ℓ → Type ℓ
Dict V = List (Bytes × V)

module _ {ℓ} {V : Type ℓ} where
  -- v, ok := m[k]
  unfoldable pub get : Dict V → Bytes → Option V
  get [] k = none
  get ((j, v) ∷ m) k = if equal j k then some v else get m k

  -- m[k] = v
  unfoldable pub put : Dict V → Bytes → V → Dict V
  put [] k v = (k, v) ∷ []
  put ((j, w) ∷ m) k v = if equal j k then (j, v) ∷ m else (j, w) ∷ put m k v

  -- delete(m, k)
  unfoldable pub remove : Dict V → Bytes → Dict V
  remove [] k = []
  remove ((j, v) ∷ m) k = let rest = remove m k in if equal j k then rest else (j, v) ∷ rest

  -- the keys of a range over the map
  unfoldable pub keys : Dict V → List Bytes
  keys [] = []
  keys ((j, v) ∷ m) = j ∷ keys m

  -- whether `_, ok := m[k]` is ok
  abbrev pub has : Dict V → Bytes → Bool
  has m k = elim (get m k) [ none ↦ false | some v ↦ true ]

  pub get-put :
      (m : Dict V) (k j : Bytes) (v : V)
      → get (put m k v) j ≡ (if equal k j then some v else get m j)
  unfolding get put
  get-put [] k j v = refl
  get-put ((i, w) ∷ m) k j v =
      ground (arith, equal_iff k j, equal_iff i k, equal_iff i j, get-put m k j v)

  pub get-remove :
      (m : Dict V) (k j : Bytes) → get (remove m k) j ≡ (if equal k j then none else get m j)
  unfolding get remove
  get-remove [] k j = ground arith
  get-remove ((i, w) ∷ m) k j =
      ground (arith, equal_iff k j, equal_iff i k, equal_iff i j, get-remove m k j)

  pub get-put_self : (m : Dict V) (k : Bytes) (v : V) → get (put m k v) k ≡ some v
  get-put_self m k v = rw (get-put m k k v, equal_refl k)

  pub mem-keys : (m : Dict V) (k : Bytes) → mem k (keys m) ≡ has m k
  unfolding get keys mem
  mem-keys [] k = refl
  mem-keys ((j, v) ∷ m) k = ground (arith, mem-keys m k)

pub ruleset dict_laws = (get-put, get-remove)
