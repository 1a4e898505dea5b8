-- ===== src/Base/Sort.antt =====
-- sort.Strings: insertion by the order of the bytes.
use thimble.Base.Tests.{ltb, ◌==◌, if◌then◌else◌, Bool-cases}
use thimble.Base.Lists.{All}
use thimble.Base.Text.{Bytes, equal, equal_comm, mem, IsUnique}
use mathlib.Core.Path.{◌≡◌, refl, ap, ◌∙◌}
use mathlib.Core.Logic.{inl, inr}
use mathlib.Core.List.{List, [], ◌∷◌}
use mathlib.Core.Bool.{Bool, true, false, ◌&&◌, ◌||◌}
use native.Mathlib.Omega.{arith}

-- a < b on strings
unfoldable pub bytes_lt : Bytes → Bytes → Bool
bytes_lt [] [] = false
bytes_lt [] (y ∷ ys) = true
bytes_lt (x ∷ xs) [] = false
bytes_lt (x ∷ xs) (y ∷ ys) = ltb x y || (x == y && bytes_lt xs ys)

unfoldable pub insert_sorted : Bytes → List Bytes → List Bytes
insert_sorted k [] = k ∷ []
insert_sorted k (x ∷ xs) = if bytes_lt x k then x ∷ insert_sorted k xs else k ∷ x ∷ xs

unfoldable pub sort_strings : List Bytes → List Bytes
unfolding insert_sorted bytes_lt
sort_strings [] = []
sort_strings (x ∷ xs) = insert_sorted x (sort_strings xs)

pub mem-insert_sorted :
    (j k : Bytes) (xs : List Bytes) → mem j (insert_sorted k xs) ≡ (equal k j || mem j xs)
unfolding insert_sorted mem
mem-insert_sorted j k [] = refl
mem-insert_sorted j k (x ∷ xs) = ground (arith, mem-insert_sorted j k xs)

pub mem-sort_strings : (j : Bytes) (xs : List Bytes) → mem j (sort_strings xs) ≡ mem j xs
unfolding sort_strings mem
mem-sort_strings j [] = refl
mem-sort_strings j (x ∷ xs) =
    mem-insert_sorted j x (sort_strings xs) ∙ ap (λ b. equal x j || b) (mem-sort_strings j xs)

All-if {κ} :
    (P : Bytes → Type κ) (b : Bool) (xs ys : List Bytes)
    → All P xs
    → All P ys
    → All P (if b then xs else ys)
All-if P true xs ys p q = p
All-if P false xs ys p q = q

All-insert_sorted {κ} :
    (P : Bytes → Type κ) (k : Bytes) (xs : List Bytes) → P k → All P xs → All P (insert_sorted k xs)
unfolding insert_sorted
All-insert_sorted P k [] p ps = (p, ps)
All-insert_sorted P k (x ∷ xs) p ps =
    All-if P (bytes_lt x k) _ _ (ps.0, All-insert_sorted P k xs p ps.1) (p, ps)

pub All-sort_strings {κ} :
    (P : Bytes → Type κ) (xs : List Bytes) → All P xs → All P (sort_strings xs)
unfolding sort_strings
All-sort_strings P [] ps = ps
All-sort_strings P (x ∷ xs) ps =
    All-insert_sorted P x (sort_strings xs) ps.0 (All-sort_strings P xs ps.1)

-- Adjacent strings are in order.
unfoldable pub sorted : List Bytes → Bool
sorted [] = true
sorted (x ∷ []) = true
sorted (x ∷ y ∷ ys) = (bytes_lt x y || equal x y) && sorted (y ∷ ys)

bytes_lt_total : (a b : Bytes) → bytes_lt a b ≡ false → (bytes_lt b a || equal b a) ≡ true
unfolding bytes_lt equal
bytes_lt_total [] [] h = refl
bytes_lt_total [] (y ∷ b) h = ground arith
bytes_lt_total (x ∷ a) [] h = refl
bytes_lt_total (x ∷ a) (y ∷ b) h = ground (arith, bytes_lt_total a b)

sorted-insert_sorted :
    (k : Bytes) (xs : List Bytes) → sorted xs ≡ true → sorted (insert_sorted k xs) ≡ true
unfolding sorted insert_sorted
sorted-insert_sorted k [] h = refl
sorted-insert_sorted k (x ∷ []) h = ground (arith, bytes_lt_total x k)
sorted-insert_sorted k (x ∷ y ∷ ys) h =
    ground (arith, bytes_lt_total x k, sorted-insert_sorted k (y ∷ ys))

pub sorted-sort_strings : (xs : List Bytes) → sorted (sort_strings xs) ≡ true
unfolding sort_strings
sorted-sort_strings [] = unfold sorted in refl
sorted-sort_strings (x ∷ xs) = sorted-insert_sorted x (sort_strings xs) (sorted-sort_strings xs)

IsUnique-insert_sorted :
    (k : Bytes) (xs : List Bytes) → mem k xs ≡ false → IsUnique xs → IsUnique (insert_sorted k xs)
unfolding insert_sorted mem
IsUnique-insert_sorted k [] m u = (m, tt)
IsUnique-insert_sorted k (x ∷ xs) m u = elim (Bool-cases (bytes_lt x k)) [
  | inl later ↦ rw later (
    ground (arith, mem-insert_sorted x k xs, equal_comm k x),
    IsUnique-insert_sorted k xs (ground arith) u.1,
  )
  | inr here ↦ rw here (m, u)
]

-- Sorting keeps that no string stands twice.
pub IsUnique-sort_strings : (xs : List Bytes) → IsUnique xs → IsUnique (sort_strings xs)
unfolding sort_strings
IsUnique-sort_strings [] u = u
IsUnique-sort_strings (x ∷ xs) u =
    IsUnique-insert_sorted x (sort_strings xs) (mem-sort_strings x xs ∙ u.0)
      (IsUnique-sort_strings xs u.1)
