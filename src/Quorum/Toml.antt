-- ===== src/Quorum/Toml.antt =====
-- The lines of the small TOML subset: comments, quotes, and key = value. The functions of
-- internal/quorum/policy.go and of internal/peer/peers_toml.go are the same text.
use thimble.Base.{
  not, ◌||◌, Option, none, some, List, [], ◌∷◌, ◌++◌, ◌==◌, if◌then◌else◌, Bytes, cut_at, contains,
  reverse,
}
use thimble.Base.Space.{trim_space}
use thimble.Errors.{Result, ok, err, expected_assignment, expected_quoted, escapes_unsupported}

-- A `#` behind the closing quote starts a comment.
unfoldable pub strip_after_quote : Bytes → Option (Bytes × Bytes) → Bytes
strip_after_quote line none = line
strip_after_quote line (some (before, rest)) = elim (cut_at b'"' rest) [
  | none ↦ line
  | some (inner, tail) ↦ elim (cut_at b'#' tail) [
    | none ↦ line
    | some (kept, _) ↦ before ++ (b'"' ∷ (inner ++ (b'"' ∷ kept)))
  ]
]

unfoldable pub strip_comment : Bytes → Bytes
unfolding strip_after_quote
strip_comment line = elim (cut_at b'#' line) [
  | none ↦ line
  | some (before, _) ↦
      if not (contains (λ c. c == b'"') before)
      then before
      else strip_after_quote line (cut_at b'"' line)
]

-- key and val of parseKV
unfoldable pub split_assignment : Bytes → Result (Bytes × Bytes)
split_assignment line = elim (cut_at b'=' line) [
  | none ↦ err expected_assignment
  | some (left, right) ↦ ok (trim_space left, trim_space right)
]

-- the inner text, given backwards with the last byte in front
unfoldable pub unquote_inner : Bytes → Bytes → Result Bytes
unquote_inner v [] = err (expected_quoted v)
unquote_inner v (last ∷ back) =
    if last == b'"'
    then (if contains (λ c. c == b'"' || c == b'\\') (reverse back)
        then err (escapes_unsupported v)
        else ok (reverse back))
    else err (expected_quoted v)

unfoldable pub unquote : Bytes → Result Bytes
unfolding unquote_inner
unquote [] = err (expected_quoted [])
unquote (c ∷ cs) =
    if c == b'"' then unquote_inner (c ∷ cs) (reverse cs) else err (expected_quoted (c ∷ cs))

-- A change of the table that was opened last, through the pointer `current`.
unfoldable pub set_last {ℓ} : {A : Type ℓ} → (A → A) → List A → List A
set_last f [] = []
set_last f (x ∷ []) = f x ∷ []
set_last f (x ∷ y ∷ ys) = x ∷ set_last f (y ∷ ys)
