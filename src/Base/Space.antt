-- ===== src/Base/Space.antt =====
-- strings.TrimSpace and strings.TrimRight over bytes. White space is Unicode's, by its UTF-8 bytes.
use mathlib.Core.List.{reverse-append, reverse-reverse}
use thimble.Base.Tests.{◌==◌, leb, ltb, if◌then◌else◌}
use thimble.Base.Text.{Bytes}
use Prim.Native.Nat.{ℕ}
use mathlib.Core.Path.{◌≡◌, refl, sym, ap, ◌∙◌}
use mathlib.Core.List.{[], ◌∷◌, ◌++◌, reverse}
use mathlib.Core.Bool.{Bool, true, ◌&&◌, ◌||◌}
use native.Mathlib.Omega.{arith}

unfoldable pub space1 : ℕ → Bool
space1 c = (leb 9 c && leb c 13) || c == 32

unfoldable pub space2 : ℕ → ℕ → Bool
space2 a b = a == 0xC2 && (b == 0x85 || b == 0xA0)

unfoldable pub space3 : ℕ → ℕ → ℕ → Bool
space3 a b c =
    (a == 0xE1 && b == 0x9A && c == 0x80)
    || (a == 0xE2
        && b == 0x80
        && ((leb 0x80 c && leb c 0x8A) || c == 0xA8 || c == 0xA9 || c == 0xAF))
    || (a == 0xE2 && b == 0x81 && c == 0x9F)
    || (a == 0xE3 && b == 0x80 && c == 0x80)

-- Drops white space from the front; the tests say which two and three bytes are a space.
unfoldable pub trim_by : (ℕ → ℕ → Bool) → (ℕ → ℕ → ℕ → Bool) → Bytes → Bytes
unfolding space1
trim_by two three [] = []
trim_by two three (a ∷ []) = if space1 a then [] else a ∷ []
trim_by two three (a ∷ b ∷ []) =
    let rest = trim_by two three (b ∷ []) in
    if space1 a then rest else if two a b then [] else a ∷ b ∷ []
trim_by two three (a ∷ b ∷ c ∷ s) =
    let one_off = trim_by two three (b ∷ c ∷ s) in
    let two_off = trim_by two three (c ∷ s) in
    let three_off = trim_by two three s in
    if space1 a
    then one_off
    else if two a b
    then two_off
    else if three a b c
    then three_off
    else a ∷ b ∷ c ∷ s

-- The text is read backwards, and so are the bytes of a space.
abbrev back2 : ℕ → ℕ → Bool
back2 b a = space2 a b

abbrev back3 : ℕ → ℕ → ℕ → Bool
back3 c b a = space3 a b c

unfoldable pub trim_space : Bytes → Bytes
unfolding trim_by space2 space3
trim_space s = reverse (trim_by back2 back3 (reverse (trim_by space2 space3 s)))

-- strings.TrimRight(s, "\r\n")
abbrev pub is_line_end : ℕ → Bool
is_line_end c = c == b'\r' || c == b'\n'

unfoldable pub drop_while : (ℕ → Bool) → Bytes → Bytes
drop_while p [] = []
drop_while p (c ∷ cs) = let rest = drop_while p cs in if p c then rest else c ∷ cs

unfoldable pub trim_line_end : Bytes → Bytes
unfolding drop_while
trim_line_end s = reverse (drop_while is_line_end (reverse s))

-- A printable ASCII byte other than the space: no white space begins or ends with it.
unfoldable pub solid : ℕ → Bool
solid c = ltb 32 c && ltb c 127

trim_front_solid : (c : ℕ) (s : Bytes) → solid c ≡ true → trim_by space2 space3 (c ∷ s) ≡ c ∷ s
unfolding trim_by space2 space3 solid
trim_front_solid c [] h = ground arith
trim_front_solid c (a ∷ []) h = ground arith
trim_front_solid c (a ∷ b ∷ s) h = ground arith

trim_back_solid : (c : ℕ) (s : Bytes) → solid c ≡ true → trim_by back2 back3 (c ∷ s) ≡ c ∷ s
unfolding trim_by space2 space3 solid
trim_back_solid c [] h = ground arith
trim_back_solid c (a ∷ []) h = ground arith
trim_back_solid c (a ∷ b ∷ s) h = ground arith

-- Text that begins and ends with solid bytes.
pub record Solid (s : Bytes) : Type 0 where
  pub head : ℕ
  pub tail : Bytes
  pub body : Bytes
  pub last : ℕ
  pub from_head : s ≡ head ∷ tail
  pub to_last : s ≡ body ++ (last ∷ [])
  pub head_solid : solid head ≡ true
  pub last_solid : solid last ≡ true

pub trim_space-Solid : {s : Bytes} → Solid s → trim_space s ≡ s
unfolding trim_space
trim_space-Solid {s} h =
    ap (λ t. reverse (trim_by back2 back3 (reverse t))) front
    ∙ ap (λ t. reverse (trim_by back2 back3 t)) backwards
    ∙ ap reverse (trim_back_solid h.last (reverse h.body) h.last_solid)
    ∙ ap reverse (sym backwards)
    ∙ reverse-reverse s
  where
    front : trim_by space2 space3 s ≡ s
    front = rw h.from_head (trim_front_solid h.head h.tail h.head_solid)

    backwards : reverse s ≡ h.last ∷ reverse h.body
    backwards = ap reverse h.to_last ∙ reverse-append h.body (h.last ∷ [])

pub trim_space-nil : trim_space [] ≡ []
unfolding trim_space
trim_space-nil = refl
