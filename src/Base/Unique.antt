-- ===== src/Base/Unique.antt =====
-- Lists of strings without repetition, and their lengths.
use thimble.Base.Tests.{if◌then◌else◌, Bool-cases}
use thimble.Base.Dict.{Dict, put, keys}
use mathlib.Core.Logic.{inl, inr}
use thimble.Base.Lists.{length, All}
use thimble.Base.Text.{Bytes, equal, equal_iff, equal_comm, mem, IsUnique}
use Prim.Native.Nat.{suc, ◌≤◌}
use mathlib.Core.Path.{◌≡◌, refl}
use mathlib.Core.List.{List, [], ◌∷◌, ◌++◌}
use mathlib.Core.Bool.{true, false, ◌||◌}
use native.Mathlib.Omega.{arith}

pub mem-append : (j : Bytes) (xs ys : List Bytes) → mem j (xs ++ ys) ≡ (mem j xs || mem j ys)
unfolding mem
mem-append j [] ys = refl
mem-append j (x ∷ xs) ys = ground (arith, mem-append j xs ys)

pub IsUnique-concat :
    (xs : List Bytes) (y : Bytes) → IsUnique xs → mem y xs ≡ false → IsUnique (xs ++ (y ∷ []))
unfolding mem
IsUnique-concat [] y u m = (refl, tt)
IsUnique-concat (x ∷ xs) y u m = (
  ground (arith, u.0, mem-append x xs (y ∷ []), equal_comm x y),
  IsUnique-concat xs y u.1 (ground arith),
)

-- The list without the first element that equals `k`.
erase : Bytes → List Bytes → List Bytes
erase k [] = []
erase k (x ∷ xs) = if equal x k then xs else x ∷ erase k xs

length-erase :
    (k : Bytes) (xs : List Bytes) → mem k xs ≡ true → suc (length (erase k xs)) ≡ length xs
unfolding erase mem
length-erase k [] m = cc
length-erase k (x ∷ xs) m = ground (arith, length-erase k xs)

mem-erase : (k j : Bytes) (xs : List Bytes) → equal k j ≡ false → mem j (erase k xs) ≡ mem j xs
unfolding erase mem
mem-erase k j [] h = refl
mem-erase k j (x ∷ xs) h =
    ground (arith, mem-erase k j xs, equal_iff x k, equal_iff x j, equal_iff k j)

-- Every element of the first list is in the second.
abbrev pub Within : List Bytes → List Bytes → Type 0
Within xs ys = All (λ x. mem x ys ≡ true) xs

Within-erase :
    (k : Bytes) (xs ys : List Bytes) → mem k xs ≡ false → Within xs ys → Within xs (erase k ys)
unfolding mem
Within-erase k [] ys m w = tt
Within-erase k (x ∷ xs) ys m w =
    (ground (arith, mem-erase k x ys, equal_comm k x, w.0), Within-erase k xs ys (ground arith) w.1)

-- A list without repetition is no longer than one that has all its elements.
pub length-Within : (xs ys : List Bytes) → IsUnique xs → Within xs ys → length xs ≤ length ys
length-Within [] ys u w = omega arith
length-Within (x ∷ xs) ys u w =
    omega (
      arith,
      length-erase x ys w.0,
      length-Within xs (erase x ys) u.1 (Within-erase x xs ys u.0 w.1),
    )

-- None of the strings was seen before.
abbrev pub Unseen : List Bytes → List Bytes → Type 0
Unseen seen [] = Unit {0}
Unseen seen (x ∷ xs) = (mem x seen ≡ false) × Unseen seen xs

pub Unseen-cons :
    (y : Bytes) (seen xs : List Bytes) → Unseen (y ∷ seen) xs → (mem y xs ≡ false) × Unseen seen xs
unfolding mem
Unseen-cons y seen [] u = (refl, tt)
Unseen-cons y seen (x ∷ xs) u =
    let (absent, later) = Unseen-cons y seen xs u.1 in
    (ground (arith, u.0, equal_comm y x), (ground (arith, u.0), later))

pub Unseen-weaken :
    (y : Bytes) (seen xs : List Bytes) → mem y xs ≡ false → Unseen seen xs → Unseen (y ∷ seen) xs
unfolding mem
Unseen-weaken y seen [] m u = tt
Unseen-weaken y seen (x ∷ xs) m u =
    (ground (arith, u.0, equal_comm y x), Unseen-weaken y seen xs (ground arith) u.1)

pub Unseen-nil : (xs : List Bytes) → Unseen [] xs
unfolding mem
Unseen-nil [] = tt
Unseen-nil (x ∷ xs) = (refl, Unseen-nil xs)

mem-keys-put {ℓ} :
    {V : Type ℓ} (m : Dict V) (k j : Bytes) (v : V)
    → equal j k ≡ false
    → mem j (keys m) ≡ false
    → mem j (keys (put m k v)) ≡ false
unfolding keys put mem
mem-keys-put [] k j v h a = ground (arith, equal_comm j k)
mem-keys-put ((i, w) ∷ m) k j v h a =
    ground
      (arith, mem-keys-put m k j v h, equal_comm i k, equal_iff i k, equal_iff j k, equal_iff i j)

-- An assignment to a map keeps its keys distinct.
pub IsUnique-keys-put {ℓ} :
    {V : Type ℓ} (m : Dict V) (k : Bytes) (v : V) → IsUnique (keys m) → IsUnique (keys (put m k v))
unfolding keys put mem
IsUnique-keys-put [] k v u = (refl, tt)
IsUnique-keys-put ((j, w) ∷ m) k v u = elim (Bool-cases (equal j k)) [
  | inl same ↦ rw same u
  | inr other ↦ rw other (mem-keys-put m k j v other u.0, IsUnique-keys-put m k v u.1)
]
