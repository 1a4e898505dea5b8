-- ===== src/Base/Utf8.antt =====
-- What encoding/json makes of a Go string that it writes and reads back: each byte that is part of no
-- UTF-8 sequence becomes U+FFFD. A sequence is one that utf8.DecodeRune accepts.
use thimble.Base.Tests.{ltb, leb, ◌==◌, if◌then◌else◌, Bool-cases, some_inverse}
use thimble.Base.Text.{Bytes}
use thimble.Base.Lists.{length}
use Prim.Native.Nat.{ℕ, zero, suc, ◌*◌, ◌≤◌}
use mathlib.Core.Path.{◌≡◌, refl, sym, ap}
use mathlib.Core.Logic.{◌⊎◌, inl, inr}
use mathlib.Core.Bool.{Bool, false, ◌&&◌}
use mathlib.Core.Option.{Option, none, some}
use mathlib.Core.List.{[], ◌∷◌}
use native.Mathlib.Omega.{arith}

abbrev between : ℕ → ℕ → ℕ → Bool
between lo hi c = leb lo c && leb c hi

abbrev continues : ℕ → Bool
continues c = between 128 191 c

-- The bytes that may be second: no overlong sequence, no surrogate, nothing above U+10FFFF.
abbrev second_of_three : ℕ → ℕ → Bool
second_of_three a b =
    if a == 224 then between 160 191 b else if a == 237 then between 128 159 b else continues b

abbrev second_of_four : ℕ → ℕ → Bool
second_of_four a b =
    if a == 240 then between 144 191 b else if a == 244 then between 128 143 b else continues b

abbrev two_bytes : ℕ → Bytes → Bool
two_bytes a [] = false
two_bytes a (b ∷ rest) = between 194 223 a && continues b

abbrev three_bytes : ℕ → Bytes → Bool
three_bytes a [] = false
three_bytes a (b ∷ []) = false
three_bytes a (b ∷ c ∷ rest) = between 224 239 a && second_of_three a b && continues c

abbrev four_bytes : ℕ → Bytes → Bool
four_bytes a [] = false
four_bytes a (b ∷ []) = false
four_bytes a (b ∷ c ∷ []) = false
four_bytes a (b ∷ c ∷ d ∷ rest) =
    between 240 244 a && second_of_four a b && continues c && continues d

-- How many of the bytes `rest` behind `a` form a sequence with it, if there is one.
unfoldable pub follow : ℕ → Bytes → Option ℕ
follow a rest =
    if ltb a 128
    then some 0
    else if two_bytes a rest
    then some 1
    else if three_bytes a rest
    then some 2
    else if four_bytes a rest
    then some 3
    else none

-- behind `k` bytes that belong to a sequence already
unfoldable pub utf8_from : ℕ → Bytes → Bytes
unfolding follow
utf8_from k [] = []
utf8_from (suc k) (a ∷ rest) = a ∷ utf8_from k rest
utf8_from zero (a ∷ rest) = elim (follow a rest) [
  | none ↦ 239 ∷ 191 ∷ 189 ∷ utf8_from zero rest
  | some k ↦ a ∷ utf8_from k rest
]

unfoldable pub utf8 : Bytes → Bytes
unfolding utf8_from
utf8 s = utf8_from zero s

Follow-cases : (f : Option ℕ) → (f ≡ none) ⊎ ((k : ℕ) × (f ≡ some k))
Follow-cases none = inl refl
Follow-cases (some k) = inr (k, refl)

two_kept : (a k : ℕ) (rest : Bytes) → two_bytes a (utf8_from (suc k) rest) ≡ two_bytes a rest
unfolding utf8_from
two_kept a k [] = refl
two_kept a k (b ∷ rest) = refl

three_kept :
    (a k : ℕ) (rest : Bytes) → three_bytes a (utf8_from (suc (suc k)) rest) ≡ three_bytes a rest
unfolding utf8_from
three_kept a k [] = refl
three_kept a k (b ∷ []) = refl
three_kept a k (b ∷ c ∷ rest) = refl

four_kept :
    (a k : ℕ) (rest : Bytes) → four_bytes a (utf8_from (suc (suc (suc k))) rest) ≡ four_bytes a rest
unfolding utf8_from
four_kept a k [] = refl
four_kept a k (b ∷ []) = refl
four_kept a k (b ∷ c ∷ []) = refl
four_kept a k (b ∷ c ∷ d ∷ rest) = refl

-- A sequence is found again where its bytes are.
follow-utf8_from :
    (a k : ℕ) (rest : Bytes) → follow a rest ≡ some k → follow a (utf8_from k rest) ≡ some k
unfolding follow
follow-utf8_from a k rest h = elim (Bool-cases (ltb a 128)) [
  | inl one ↦ rw one (rw (follow, one) at h)
  | inr more ↦ elim (Bool-cases (two_bytes a rest)) [
    | inl two ↦
        let is_k : k ≡ 1 = sym (some_inverse _ _ (rw (follow, more, two) at h)) in
        rw (is_k, more, two_kept a 0 rest, two) refl
    | inr not_two ↦ elim (Bool-cases (three_bytes a rest)) [
      | inl three ↦
          let is_k : k ≡ 2 = sym (some_inverse _ _ (rw (follow, more, not_two, three) at h)) in
          rw (is_k, more, two_kept a 1 rest, not_two, three_kept a 0 rest, three) refl
      | inr not_three ↦ elim (Bool-cases (four_bytes a rest)) [
        | inl four ↦
            let is_k : k ≡ 3 =
              sym (some_inverse _ _ (rw (follow, more, not_two, not_three, four) at h)) in
            rw
              (
                is_k,
                more,
                two_kept a 2 rest,
                not_two,
                three_kept a 1 rest,
                not_three,
                four_kept a 0 rest,
                four,
              )
              refl
        | inr not_four ↦ let h1 = rw (follow, more, not_two, not_three, not_four) at h in cc
      ]
    ]
  ]
]

utf8_from_idem : (k : ℕ) (s : Bytes) → utf8_from k (utf8_from k s) ≡ utf8_from k s
unfolding utf8_from
utf8_from_idem k [] = refl
utf8_from_idem (suc k) (a ∷ rest) = ap (◌∷◌ a) (utf8_from_idem k rest)
utf8_from_idem zero (a ∷ rest) = elim (Follow-cases (follow a rest)) [
  | inl bad ↦
      rw (utf8_from, bad) (ap (λ (t : Bytes). 239 ∷ 191 ∷ 189 ∷ t) (utf8_from_idem zero rest))
  | inr (k, found) ↦
      rw (utf8_from, found, follow-utf8_from a k rest found) (ap (◌∷◌ a) (utf8_from_idem k rest))
]

-- What is read back is read back as it is.
pub utf8_idem : (s : Bytes) → utf8 (utf8 s) ≡ utf8 s
unfolding utf8
utf8_idem s = utf8_from_idem zero s

length-utf8_from : (k : ℕ) (s : Bytes) → length (utf8_from k s) ≤ 3 * length s
unfolding utf8_from
length-utf8_from k [] = omega arith
length-utf8_from (suc k) (a ∷ rest) = omega (arith, length-utf8_from k rest)
length-utf8_from zero (a ∷ rest) = elim (Follow-cases (follow a rest)) [
  | inl bad ↦ rw (utf8_from, bad) (omega (arith, length-utf8_from zero rest))
  | inr (k, found) ↦ rw (utf8_from, found) (omega (arith, length-utf8_from k rest))
]

pub length-utf8 : (s : Bytes) → length (utf8 s) ≤ 3 * length s
unfolding utf8
length-utf8 s = length-utf8_from zero s
