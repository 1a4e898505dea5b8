-- ===== src/Dotenv/Scan.antt =====
-- bufio.ScanLines: the lines of a text, and the carriage return that a line may end with.
use thimble.Base.{
  ℕ, ◌≡◌, refl, sym, ap, ◌∙◌, true, List, [], ◌∷◌, ◌++◌, ◌==◌, if◌then◌else◌, Bytes, push_byte,
  all_of, differs, reverse, arith,
}
use mathlib.Core.List.{reverse-append, reverse-reverse}

unfoldable pub scan_lines : Bytes → List Bytes
unfolding push_byte
scan_lines [] = []
scan_lines (c ∷ cs) = let rest = scan_lines cs in if c == b'\n' then [] ∷ rest else push_byte c rest

unfoldable pub drop_last_cr : Bytes → Bytes
drop_last_cr [] = []
drop_last_cr (c ∷ cs) = if c == b'\r' then cs else c ∷ cs

unfoldable pub drop_cr : Bytes → Bytes
unfolding drop_last_cr
drop_cr s = reverse (drop_last_cr (reverse s))

pub scan_lines-append :
    (line rest : Bytes)
    → all_of (differs b'\n') line ≡ true
    → scan_lines (line ++ (b'\n' ∷ rest)) ≡ line ∷ scan_lines rest
unfolding scan_lines all_of
scan_lines-append [] rest h = refl
scan_lines-append (c ∷ cs) rest h = ground (arith, scan_lines-append cs rest)

drop_last_cr_keep : (c : ℕ) (s : Bytes) → differs b'\r' c ≡ true → drop_last_cr (c ∷ s) ≡ c ∷ s
unfolding drop_last_cr
drop_last_cr_keep c s h = ground arith

-- A line that ends with another byte stays whole.
pub drop_cr-concat :
    (body : Bytes) (c : ℕ) → differs b'\r' c ≡ true → drop_cr (body ++ (c ∷ [])) ≡ body ++ (c ∷ [])
unfolding drop_cr
drop_cr-concat body c h =
    ap (λ t. reverse (drop_last_cr t)) backwards
    ∙ ap reverse (drop_last_cr_keep c (reverse body) h)
    ∙ ap reverse (sym backwards)
    ∙ reverse-reverse (body ++ (c ∷ []))
  where
    backwards : reverse (body ++ (c ∷ [])) ≡ c ∷ reverse body
    backwards = reverse-append body (c ∷ [])
