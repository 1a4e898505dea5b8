-- ===== src/Base/Decimal.antt =====
-- fmt's %d on numbers that are not negative, and the padding of %-12s.
use thimble.Base.Tests.{ltb, leb, if◌then◌else◌, Bool-cases}
use thimble.Base.Text.{Bytes}
use thimble.Base.Number.{ℤ, pos, negsuc, digits}
use Prim.Native.Nat.{ℕ, zero, suc, ◌+◌, ◌-◌, ◌*◌, ◌/◌, ◌%◌, ◌<◌}
use mathlib.Core.Path.{◌≡◌, refl, ap, ◌∙◌}
use mathlib.Core.Logic.{inl, inr}
use mathlib.Core.Bool.{true, ◌&&◌}
use mathlib.Core.Option.{some}
use mathlib.Core.List.{[], ◌∷◌}
use native.Mathlib.Omega.{arith}

-- The digits of `n` in front of `out`; `n + 1` rounds are enough.
unfoldable pub decimal_from : ℕ → ℕ → Bytes → Bytes
decimal_from zero n out = out
decimal_from (suc fuel) n out =
    let rest = decimal_from fuel (n / 10) ((48 + n % 10) ∷ out) in
    if ltb n 10 then (48 + n) ∷ out else rest

unfoldable pub decimal : ℕ → Bytes
unfolding decimal_from
decimal n = decimal_from (suc n) n []

-- %d on a signed number
unfoldable pub integer_text : ℤ → Bytes
unfolding decimal
integer_text (pos n) = decimal n
integer_text (negsuc n) = b'-' ∷ decimal (suc n)

unfoldable pub pad_end : ℕ → Bytes → Bytes
pad_end zero s = s
pad_end (suc n) [] = 32 ∷ pad_end n []
pad_end (suc n) (c ∷ cs) = c ∷ pad_end n cs

one_digit : (m d : ℕ) (out : Bytes) → d < 10 → digits m ((48 + d) ∷ out) ≡ digits (m * 10 + d) out
unfolding digits
one_digit m d out h =
    let digit : (leb 48 (48 + d) && leb (48 + d) 57) ≡ true = ground arith in
    let value : 48 + d - 48 ≡ d = omega arith in rw (digit, value) refl

digits-decimal_from :
    (fuel n : ℕ) (out : Bytes) → n < fuel → digits 0 (decimal_from fuel n out) ≡ digits n out
unfolding decimal_from
digits-decimal_from zero n out h = absurd (omega arith)
digits-decimal_from (suc fuel) n out h = elim (Bool-cases (ltb n 10)) [
  | inl small ↦ rw small (one_digit 0 n out (ground arith) ∙ ap (λ m. digits m out) (omega arith))
  | inr large ↦ rw large (
      digits-decimal_from fuel (n / 10) ((48 + n % 10) ∷ out) (ground arith)
      ∙ one_digit (n / 10) (n % 10) out (omega arith)
      ∙ ap (λ m. digits m out) (omega arith))
]

-- The digits are read back as the number, whatever its size: the fuel of `decimal` is enough.
pub digits-decimal : (n : ℕ) → digits 0 (decimal n) ≡ some n
unfolding decimal digits
digits-decimal n = digits-decimal_from (suc n) n [] (omega arith)
