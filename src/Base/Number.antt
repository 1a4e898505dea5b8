-- ===== src/Base/Number.antt =====
-- Signed machine integers as strconv.Atoi reads them.
use thimble.Base.Tests.{leb, ◌==◌, if◌then◌else◌}
use thimble.Base.Text.{Bytes}
use Prim.Native.Nat.{ℕ, zero, suc, ◌+◌, ◌-◌, ◌*◌, ◌^◌}
use mathlib.Core.List.{[], ◌∷◌}
use mathlib.Core.Bool.{◌&&◌}
use mathlib.Core.Option.{Option, none, some}

-- `negsuc n` is -(n + 1).
pub data ℤ : Type 0 where
  pos : ℕ → ℤ
  negsuc : ℕ → ℤ

abbrev pub negate : ℕ → ℤ
negate zero = pos 0
negate (suc n) = negsuc n

unfoldable pub digits : ℕ → Bytes → Option ℕ
digits n [] = some n
digits n (c ∷ cs) =
    let rest = digits (n * 10 + (c - 48)) cs in if leb 48 c && leb c 57 then rest else none

-- digits, at least one, of a number that is at most `bound`
unfoldable pub magnitude : ℕ → Bytes → Option ℕ
unfolding digits
magnitude bound [] = none
magnitude bound (c ∷ cs) = elim (digits 0 (c ∷ cs)) [
  | none ↦ none
  | some n ↦ if leb n bound then some n else none
]

-- strconv.Atoi, on 64-bit integers
unfoldable pub atoi : Bytes → Option ℤ
unfolding magnitude
atoi [] = none
atoi (c ∷ cs) =
    if c == b'-'
    then elim (magnitude (2 ^ 63) cs) [ none ↦ none | some n ↦ some (negate n) ]
    else if c == b'+'
    then elim (magnitude (2 ^ 63 - 1) cs) [ none ↦ none | some n ↦ some (pos n) ]
    else elim (magnitude (2 ^ 63 - 1) (c ∷ cs)) [ none ↦ none | some n ↦ some (pos n) ]
