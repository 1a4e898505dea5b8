-- ===== src/Store/Validate/Unique.antt =====
-- The loop of sortedUnique: what it keeps of a list, and that it keeps nothing twice.
use thimble.Base.{
  ◌≡◌, refl, inl, inr, Bool, false, not, ◌&&◌, ◌||◌, List, [], ◌∷◌, arith, if◌then◌else◌, Bytes,
  Bool-cases, equal, equal_iff, equal_refl, mem, IsUnique,
}

-- value == "" || seen[value]
abbrev pub skips : List Bytes → Bytes → Bool
skips seen value = equal value [] || mem value seen

unfoldable pub unique_from : List Bytes → List Bytes → List Bytes
unique_from seen [] = []
unique_from seen (v ∷ rest) =
    let skipped = unique_from seen rest in
    let kept = unique_from (v ∷ seen) rest in if skips seen v then skipped else v ∷ kept

-- The strings kept are those of the list that are neither empty nor seen before.
pub mem-unique_from :
    (j : Bytes) (seen values : List Bytes)
    → mem j (unique_from seen values) ≡ (mem j values && not (skips seen j))
unfolding unique_from mem
mem-unique_from j seen [] = refl
mem-unique_from j seen (v ∷ rest) =
    ground (arith, mem-unique_from j seen rest, mem-unique_from j (v ∷ seen) rest, equal_iff v j)

unique_from_seen :
    (v : Bytes) (seen rest : List Bytes) → mem v (unique_from (v ∷ seen) rest) ≡ false
unfolding mem
unique_from_seen v seen rest = ground (arith, mem-unique_from v (v ∷ seen) rest, equal_refl v)

pub unique_from-IsUnique : (seen values : List Bytes) → IsUnique (unique_from seen values)
unfolding unique_from
unique_from-IsUnique seen [] = tt
unique_from-IsUnique seen (v ∷ rest) = elim (Bool-cases (skips seen v)) [
  | inl skip ↦ rw skip (unique_from-IsUnique seen rest)
  | inr keep ↦ rw keep (unique_from_seen v seen rest, unique_from-IsUnique (v ∷ seen) rest)
]
