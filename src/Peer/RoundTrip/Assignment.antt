-- ===== src/Peer/RoundTrip/Assignment.antt =====
-- A line that assigns a quoted value to a key, as Save writes it and Load reads it.
use thimble.Base.{
  ℕ, ◌≡◌, refl, sym, ap, Bool, true, false, not, ◌&&◌, ◌||◌, some, List, [], ◌∷◌, ◌++◌, ◌==◌, arith,
  Bytes, codes, all_of, &&_left, &&_right, all_of_imp, append_assoc, Option-cases, inl, inr, equal,
  has_prefix, contains, differs, cut_at, cut_at-append, split_at, push_byte,
}
use mathlib.Core.List.{reverse-append, reverse-reverse}
use thimble.Base.Space.{Solid, solid, space1, space2, space3, trim_by, trim_space, trim_space-Solid}
use thimble.Errors.{ok}
use thimble.Quorum.Toml.{
  set_last, strip_comment, strip_after_quote, split_assignment, unquote, unquote_inner,
}
use thimble.Peer.File.{Reader, quote_byte, quote_from, assign_field, parse_kv, parse_line}

-- A byte that %q writes as it is, and that is no white space.
unfoldable pub plain : ℕ → Bool
plain c = solid c && not (c == b'"' || c == b'\\')

plain-differs : (c : ℕ) → plain c ≡ true → differs b'"' c ≡ true
unfolding plain
plain-differs c h = ground arith

pub quote_from-plain :
    (wide : Bytes → Bytes) (s : Bytes) → all_of plain s ≡ true → quote_from wide [] s ≡ s
unfolding quote_from all_of plain solid quote_byte
quote_from-plain wide [] h = refl
quote_from-plain wide (c ∷ cs) h = ground (arith, quote_from-plain wide cs)

-- A line that opens a quote before any comment, and closes it at its end, is no comment.
cut_at-eq-some :
    (b c : ℕ) (cs before behind : Bytes)
    → (c == b) ≡ false
    → cut_at b (c ∷ cs) ≡ some (before, behind)
    → (l : Bytes) × (before ≡ c ∷ l) × (cut_at b cs ≡ some (l, behind))
unfolding cut_at
cut_at-eq-some b c cs before behind h e = elim (Option-cases (cut_at b cs)) [
  | inl nowhere ↦ absurd (ground arith)
  | inr ((l, r), found) ↦ (l, ground arith, ground arith)
]

quote_before_comment :
    (l rest before behind : Bytes)
    → all_of (differs b'#') l ≡ true
    → cut_at b'#' (l ++ (b'"' ∷ rest)) ≡ some (before, behind)
    → contains (λ c. c == b'"') before ≡ true
unfolding contains all_of
quote_before_comment [] rest before behind h e =
    let (l, opened, _) = cut_at-eq-some b'#' b'"' rest before behind refl e in rw opened refl
quote_before_comment (c ∷ l) rest before behind h e =
    let (kept, opened, found) =
      cut_at-eq-some b'#' c (l ++ (b'"' ∷ rest)) before behind (ground arith) e in
    rw opened (ground (arith, quote_before_comment l rest kept behind (ground arith) found))

pub set_last-concat {ℓ} :
    {A : Type ℓ} (f : A → A) (xs : List A) (x : A) → set_last f (xs ++ (x ∷ [])) ≡ xs ++ (f x ∷ [])
unfolding set_last
set_last-concat f [] x = refl
set_last-concat f (y ∷ []) x = refl
set_last-concat f (y ∷ z ∷ zs) x = ap (◌∷◌ y) (set_last-concat f (z ∷ zs) x)

pub split_at-line :
    (b : ℕ) (l r : Bytes)
    → all_of (differs b) l ≡ true
    → split_at b (l ++ (b ∷ r)) ≡ l ∷ split_at b r
unfolding split_at all_of push_byte
split_at-line b [] r h = ground arith
split_at-line b (c ∷ l) r h = ground (arith, split_at-line b l r)

contains-plain :
    (s : Bytes) → all_of plain s ≡ true → contains (λ c. c == b'"' || c == b'\\') s ≡ false
unfolding contains all_of plain
contains-plain [] h = refl
contains-plain (c ∷ cs) h = ground (arith, contains-plain cs)

unquote-quoted : (s : Bytes) → all_of plain s ≡ true → unquote (b'"' ∷ (s ++ (b'"' ∷ []))) ≡ ok s
unfolding unquote unquote_inner
unquote-quoted s h =
    rw (reverse-append s (b'"' ∷ []), unquote_inner, reverse-reverse s, contains-plain s h) refl

-- A quoted value behind some text is no comment.
strip_comment-quoted :
    (l s : Bytes)
    → all_of (λ c. differs b'#' c && differs b'"' c) l ≡ true
    → all_of plain s ≡ true
    → strip_comment (l ++ (b'"' ∷ (s ++ (b'"' ∷ [])))) ≡ l ++ (b'"' ∷ (s ++ (b'"' ∷ [])))
unfolding strip_comment cut_at
strip_comment-quoted l s hl hs = elim (Option-cases (cut_at b'#' line)) [
  | inl nowhere ↦ rw (strip_comment, nowhere) refl
  | inr ((before, behind), found) ↦
      rw
        (
          strip_comment,
          found,
          quote_before_comment l _ before behind (all_of_imp _ _ (λ c h. &&_left _ _ h) l hl) found,
          cut_at-append b'"' l (s ++ (b'"' ∷ [])) (all_of_imp _ _ (λ c h. &&_right _ _ h) l hl),
          strip_after_quote,
          cut_at-append b'"' s [] (all_of_imp plain (differs b'"') plain-differs s hs),
        )
        refl
]
  where
    line : Bytes
    line = l ++ (b'"' ∷ (s ++ (b'"' ∷ [])))

trim_by-space :
    (two : ℕ → ℕ → Bool) (three : ℕ → ℕ → ℕ → Bool) (s : Bytes)
    → trim_by two three (b' ' ∷ s) ≡ trim_by two three s
unfolding trim_by space1
trim_by-space two three [] = refl
trim_by-space two three (a ∷ []) = refl
trim_by-space two three (a ∷ b ∷ s) = refl

-- The space that stands behind the sign of equality.
trim_space-space : (s : Bytes) → trim_space (b' ' ∷ s) ≡ trim_space s
unfolding trim_space
trim_space-space s = rw (trim_space, trim_by-space space2 space3 s) refl

quoted-Solid : (s : Bytes) → Solid (b'"' ∷ (s ++ (b'"' ∷ [])))
unfolding solid
quoted-Solid s = record {
  head = b'"';
  tail = s ++ (b'"' ∷ []);
  body = b'"' ∷ s;
  last = b'"';
  from_head = refl;
  to_last = refl;
  head_solid = refl;
  last_solid = refl;
}

-- A key that is a word of the file.
pub record Key (key : Bytes) : Type 0 where
  pub head : ℕ
  pub tail : Bytes
  pub is_word : key ≡ head ∷ tail
  pub head_solid : solid head ≡ true
  pub no_bracket : (head == b'[') ≡ false
  pub trimmed : trim_space (key ++ (b' ' ∷ [])) ≡ key
  pub assigns : all_of (differs b'=') (key ++ (b' ' ∷ [])) ≡ true
  pub opens : all_of (λ c. differs b'#' c && differs b'"' c) (key ++ codes " = ") ≡ true

abbrev pub quoted : Bytes → Bytes
quoted s = b'"' ∷ (s ++ (b'"' ∷ []))

unfoldable pub line_of : Bytes → Bytes → Bytes
line_of key s = key ++ (codes " = " ++ quoted s)

line_of-Solid : (key s : Bytes) → Key key → Solid (line_of key s)
unfolding line_of solid
line_of-Solid key s k = record {
  head = k.head;
  tail = k.tail ++ (codes " = " ++ quoted s);
  body = key ++ (codes " = " ++ (b'"' ∷ s));
  last = b'"';
  from_head = ap (λ t. t ++ (codes " = " ++ quoted s)) k.is_word;
  to_last = sym (append_assoc key (codes " = " ++ (b'"' ∷ s)) (b'"' ∷ []));
  head_solid = k.head_solid;
  last_solid = refl;
}

strip_comment-line_of :
    (key s : Bytes)
    → Key key
    → all_of plain s ≡ true
    → strip_comment (line_of key s) ≡ line_of key s
unfolding line_of
strip_comment-line_of key s k h =
    rw (sym (append_assoc key (codes " = ") (quoted s)))
      (strip_comment-quoted (key ++ codes " = ") s k.opens h)

split_assignment-line_of :
    (key s : Bytes) → Key key → split_assignment (line_of key s) ≡ ok (key, quoted s)
unfolding split_assignment line_of
split_assignment-line_of key s k =
    rw
      (
        sym (append_assoc key (b' ' ∷ []) (b'=' ∷ b' ' ∷ quoted s)),
        split_assignment,
        cut_at-append b'=' (key ++ (b' ' ∷ [])) (b' ' ∷ quoted s) k.assigns,
        k.trimmed,
        trim_space-space (quoted s),
        trim_space-Solid (quoted-Solid s),
      )
      refl

-- A line that does not begin with a bracket is an assignment.
parse_line-cons :
    (c : ℕ) (cs : Bytes) (r : Reader)
    → (c == b'[') ≡ false
    → parse_line (c ∷ cs) r ≡ parse_kv (c ∷ cs) r
unfolding parse_line equal has_prefix parse_kv
parse_line-cons c cs r h = rw h refl

parse_line-Key :
    (key s : Bytes) (r : Reader)
    → Key key
    → parse_line (line_of key s) r ≡ parse_kv (line_of key s) r
unfolding line_of
parse_line-Key key s r k =
    rw k.is_word (parse_line-cons k.head (k.tail ++ (codes " = " ++ quoted s)) r k.no_bracket)

pub parse_line-line_of :
    (key s : Bytes) (r : Reader)
    → Key key
    → all_of plain s ≡ true
    → r.in_section ≡ true
    → parse_line (trim_space (strip_comment (line_of key s))) r ≡ assign_field key s r
unfolding parse_kv assign_field
parse_line-line_of key s r k h inside =
    rw
      (
        strip_comment-line_of key s k h,
        trim_space-Solid (line_of-Solid key s k),
        parse_line-Key key s r k,
        parse_kv,
        split_assignment-line_of key s k,
        inside,
        unquote-quoted s h,
      )
      refl
