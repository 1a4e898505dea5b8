-- ===== src/Base/Lists.antt =====
-- Lists measured by native numbers, and predicates on every element.
use Prim.Native.Nat.{ℕ, zero, suc, ◌+◌}
use mathlib.Core.Path.{◌≡◌, refl, ap}
use mathlib.Core.List.{List, [], ◌∷◌, ◌++◌}
use mathlib.Core.Bool.{Bool, true, ◌&&◌}
use native.Mathlib.Omega.{arith}

module _ {ℓ} {A : Type ℓ} where
  abbrev pub length : List A → ℕ
  length [] = 0
  length (x ∷ xs) = suc (length xs)

  abbrev pub take : ℕ → List A → List A
  take zero xs = []
  take (suc n) [] = []
  take (suc n) (x ∷ xs) = x ∷ take n xs

  abbrev pub drop : ℕ → List A → List A
  drop zero xs = xs
  drop (suc n) [] = []
  drop (suc n) (x ∷ xs) = drop n xs

  -- Every element passes a test.
  unfoldable pub all_of : (A → Bool) → List A → Bool
  all_of p [] = true
  all_of p (x ∷ xs) = p x && all_of p xs

  pub length-append : (xs ys : List A) → length (xs ++ ys) ≡ length xs + length ys
  length-append [] ys = omega arith
  length-append (x ∷ xs) ys = omega (arith, length-append xs ys)

-- Every element has a property.
abbrev pub All {ℓ κ} : {A : Type ℓ} → (A → Type κ) → List A → Type κ
All P [] = Unit
All P (x ∷ xs) = P x × All P xs

module _ {ℓ} {A : Type ℓ} where
  pub all_of-append :
      (p : A → Bool) (xs ys : List A) → all_of p (xs ++ ys) ≡ (all_of p xs && all_of p ys)
  unfolding all_of
  all_of-append p [] ys = refl
  all_of-append p (x ∷ xs) ys = ground (arith, all_of-append p xs ys)

  pub all_of_head : (p : A → Bool) (x : A) (xs : List A) → all_of p (x ∷ xs) ≡ true → p x ≡ true
  unfolding all_of
  all_of_head p x xs h = ground arith

  pub all_of_last :
      (p : A → Bool) (xs : List A) (x : A) → all_of p (xs ++ (x ∷ [])) ≡ true → p x ≡ true
  unfolding all_of
  all_of_last p [] x h = ground arith
  all_of_last p (y ∷ xs) x h = all_of_last p xs x (ground arith)

  -- The last element, with what stands before it.
  pub split_last : (x : A) (xs : List A) → (body : List A) × (y : A) × (x ∷ xs ≡ body ++ (y ∷ []))
  split_last x [] = ([], x, refl)
  split_last x (y ∷ xs) = let (body, z, p) = split_last y xs in (x ∷ body, z, ap (◌∷◌ x) p)

  pub all_of_imp :
      (p q : A → Bool)
      → ((x : A) → p x ≡ true → q x ≡ true)
      → (xs : List A) → all_of p xs ≡ true
      → all_of q xs ≡ true
  unfolding all_of
  all_of_imp p q h [] e = refl
  all_of_imp p q h (x ∷ xs) e = ground (arith, h x, all_of_imp p q h xs)

  pub All-imp {κ ι} :
      {P : A → Type κ} {Q : A → Type ι}
      → ((x : A) → P x → Q x)
      → (xs : List A) → All P xs
      → All Q xs
  All-imp h [] a = tt
  All-imp h (x ∷ xs) (p, ps) = (h x p, All-imp h xs ps)
