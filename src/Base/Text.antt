-- ===== src/Base/Text.antt =====
-- Go strings as byte lists: equality, prefixes, searches.
use Prim.Native.Nat.{ℕ}
use Prim.Native.Char.{code}
use Prim.Native.String.{String}
use mathlib.Core.Path.{◌≡◌, refl}
use mathlib.Core.Logic.{◌↔◌, ◌≢◌}
use mathlib.Core.List.{List, [], ◌∷◌, ◌++◌}
use mathlib.Core.Bool.{Bool, true, false, not, ◌&&◌, ◌||◌}
use mathlib.Core.Option.{Option, none, some}
use native.Mathlib.Omega.{arith}
use thimble.Base.Tests.{◌==◌, if◌then◌else◌}
use thimble.Base.Lists.{all_of}

abbrev pub Bytes : Type 0
Bytes = List ℕ

-- The code points of a text, which are its bytes where it is ASCII, as every literal here is.
abbrev pub codes : String → Bytes
codes String.[] = []
codes (String.◌∷◌ c s) = code c ∷ codes s

-- `a == b` on strings
unfoldable pub equal : Bytes → Bytes → Bool
equal [] [] = true
equal (x ∷ xs) (y ∷ ys) = x == y && equal xs ys
equal _ _ = false

-- strings.Join
unfoldable pub join_with : Bytes → List Bytes → Bytes
join_with separator [] = []
join_with separator (s ∷ []) = s
join_with separator (s ∷ t ∷ rest) = s ++ (separator ++ join_with separator (t ∷ rest))

-- The comparison decides whether two strings are the same.
pub equal_iff : (left right : Bytes) → (equal left right ≡ true) ↔ (left ≡ right)
unfolding equal
equal_iff [] right = ground arith
equal_iff (c ∷ cs) [] = ground arith
equal_iff (c ∷ cs) (d ∷ ds) = ground (arith, equal_iff cs ds)

pub equal_refl : (a : Bytes) → equal a a ≡ true
equal_refl a = (equal_iff a a).1 refl

pub equal_comm : (a b : Bytes) → equal a b ≡ equal b a
equal_comm a b = ground (arith, equal_iff a b, equal_iff b a)

pub equal-ne : (a b : Bytes) → a ≢ b → equal a b ≡ false
equal-ne a b h = ground (arith, equal_iff a b)

-- strings.HasPrefix
unfoldable pub has_prefix : Bytes → Bytes → Bool
has_prefix s [] = true
has_prefix [] (p ∷ ps) = false
has_prefix (c ∷ cs) (p ∷ ps) = c == p && has_prefix cs ps

-- strings.ContainsAny, on a set given by its test
unfoldable pub contains : (ℕ → Bool) → Bytes → Bool
contains p [] = false
contains p (c ∷ cs) = p c || contains p cs

-- The text before and after the first byte `b`: strings.IndexByte with both slices, and
-- strings.SplitN(s, b, 2).
unfoldable pub cut_at : ℕ → Bytes → Option (Bytes × Bytes)
cut_at b [] = none
cut_at b (c ∷ cs) =
    let rest = cut_at b cs in
    if c == b then some ([], cs) else elim rest [ none ↦ none | some (l, r) ↦ some (c ∷ l, r) ]

-- Whether a byte differs from `b`.
abbrev pub differs : ℕ → ℕ → Bool
differs b c = not (c == b)

pub cut_at-append :
    (b : ℕ) (l r : Bytes) → all_of (differs b) l ≡ true → cut_at b (l ++ (b ∷ r)) ≡ some (l, r)
unfolding cut_at all_of
cut_at-append b [] r h = ground arith
cut_at-append b (c ∷ l) r h = ground (arith, cut_at-append b l r)

-- A byte put before the first of some lines.
unfoldable pub push_byte : ℕ → List Bytes → List Bytes
push_byte c [] = (c ∷ []) ∷ []
push_byte c (l ∷ ls) = (c ∷ l) ∷ ls

-- strings.Split at a byte; the result is never empty.
unfoldable pub split_at : ℕ → Bytes → List Bytes
unfolding push_byte
split_at b [] = [] ∷ []
split_at b (c ∷ cs) = let rest = split_at b cs in if c == b then [] ∷ rest else push_byte c rest

-- Membership in a list of strings.
unfoldable pub mem : Bytes → List Bytes → Bool
mem k [] = false
mem k (x ∷ xs) = equal x k || mem k xs

-- No string stands twice in the list.
abbrev pub IsUnique : List Bytes → Type 0
IsUnique [] = Unit {0}
IsUnique (x ∷ xs) = (mem x xs ≡ false) × IsUnique xs
