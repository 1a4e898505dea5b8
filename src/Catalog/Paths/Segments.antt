-- ===== src/Catalog/Paths/Segments.antt =====
-- Paths whose segments Clean keeps.
use thimble.Base.{
  ◌≡◌, refl, sym, ap, ◌∙◌, Bool, true, false, some, List, [], ◌∷◌, ◌++◌, ◌==◌, arith, Bytes, All,
  all_of, equal, differs, split_at, push_byte, reverse, append-nil, append_assoc, Bool-cases, inl,
  inr, ==_iff, equal_refl,
}
use mathlib.Core.List.{reverse-append}
use thimble.Catalog.Paths.{
  dot, dots, is_absolute, segments, rooted, unrooted, clean_segments, or_dot, clean, join,
  strip_common, rel,
}

-- A segment that Clean keeps.
pub record IsPlain (s : Bytes) : Type 0 where
  pub not_empty : equal s [] ≡ false
  pub not_dot : equal s dot ≡ false
  pub not_dots : equal s dots ≡ false
  pub no_slash : all_of (differs b'/') s ≡ true

segments-append :
    (s rest : Bytes)
    → all_of (differs b'/') s ≡ true
    → split_at b'/' (s ++ (b'/' ∷ rest)) ≡ s ∷ split_at b'/' rest
unfolding split_at all_of push_byte
segments-append [] rest h = ground arith
segments-append (c ∷ s) rest h = ground (arith, segments-append s rest)

pub segments_last : (s : Bytes) → all_of (differs b'/') s ≡ true → split_at b'/' s ≡ s ∷ []
unfolding split_at all_of push_byte
segments_last [] h = refl
segments_last (c ∷ s) h = ground (arith, segments_last s)

segments-rooted :
    (s : Bytes) (ss : List Bytes)
    → IsPlain s
    → All IsPlain ss
    → split_at b'/' (s ++ rooted ss) ≡ s ∷ ss
unfolding rooted
segments-rooted s [] p ps = rw (append-nil s) (segments_last s p.no_slash)
segments-rooted s (t ∷ ss) p ps =
    segments-append s (t ++ rooted ss) p.no_slash ∙ ap (◌∷◌ s) (segments-rooted t ss ps.0 ps.1)

pub split_at-cons : (path : Bytes) → (s : Bytes) × (ss : List Bytes) × (split_at b'/' path ≡ s ∷ ss)
unfolding split_at push_byte
split_at-cons [] = ([], [], refl)
split_at-cons (c ∷ path) =
    let (s, ss, e) = split_at-cons path in
    elim (Bool-cases (c == b'/')) [
      | inl slash ↦ ([], s ∷ ss, rw (slash, e) refl)
      | inr other ↦ (c ∷ s, ss, rw (other, e) refl)
    ]

-- A path is its segments with slashes between them.
pub unrooted-segments : (path : Bytes) → unrooted (segments path) ≡ path
unfolding segments split_at push_byte unrooted rooted
unrooted-segments [] = refl
unrooted-segments (c ∷ path) =
    let (s, ss, e) = split_at-cons path in
    let whole = rw e at (unrooted-segments path) in
    elim (Bool-cases (c == b'/')) [
      | inl slash ↦ rw (slash, e, whole, (==_iff c b'/').0 slash) refl
      | inr other ↦ rw (other, e) (ap (◌∷◌ c) whole)
    ]

reverse_cons : (s : Bytes) (kept : List Bytes) → reverse (s ∷ kept) ≡ reverse kept ++ (s ∷ [])
reverse_cons s kept = reverse-append (s ∷ []) kept

clean_segments-plain :
    (absolute : Bool) (kept ss : List Bytes)
    → All IsPlain ss
    → clean_segments absolute kept ss ≡ reverse kept ++ ss
unfolding clean_segments
clean_segments-plain absolute kept [] ps = sym (append-nil (reverse kept))
clean_segments-plain absolute kept (s ∷ ss) ps =
    rw (ps.0.not_empty, ps.0.not_dot, ps.0.not_dots)
      (clean_segments-plain absolute (s ∷ kept) ss ps.1
        ∙ ap (λ t. t ++ ss) (reverse_cons s kept)
        ∙ append_assoc (reverse kept) (s ∷ []) ss)

segments-rooted_list : (ss : List Bytes) → All IsPlain ss → segments (rooted ss) ≡ [] ∷ ss
unfolding segments rooted split_at push_byte
segments-rooted_list [] ps = refl
segments-rooted_list (s ∷ ss) ps = ap (◌∷◌ []) (segments-rooted s ss ps.0 ps.1)

rooted-append : (xs ys : List Bytes) → rooted (xs ++ ys) ≡ rooted xs ++ rooted ys
unfolding rooted
rooted-append [] ys = refl
rooted-append (x ∷ xs) ys =
    ap (λ t. b'/' ∷ (x ++ t)) (rooted-append xs ys)
    ∙ ap (◌∷◌ b'/') (sym (append_assoc x (rooted xs) (rooted ys)))

-- The segments of an absolute path of plain segments.
pub kept_segments :
    (ss : List Bytes) → All IsPlain ss → clean_segments true [] (segments (rooted ss)) ≡ ss
unfolding clean_segments equal
kept_segments ss ps = rw (segments-rooted_list ss ps) (clean_segments-plain true [] ss ps)

pub clean-rooted :
    (s : Bytes) (ss : List Bytes) → All IsPlain (s ∷ ss) → clean (rooted (s ∷ ss)) ≡ rooted (s ∷ ss)
unfolding clean is_absolute rooted
clean-rooted s ss ps = rw (clean, kept_segments (s ∷ ss) ps) refl

rooted-segments : (name : Bytes) → b'/' ∷ name ≡ rooted (segments name)
unfolding segments rooted unrooted
rooted-segments name =
    let (s, ss, e) = split_at-cons name in
    rw e (ap (◌∷◌ b'/') (sym (rw e at (unrooted-segments name))))

pub All-append-plain :
    (xs ys : List Bytes) → All IsPlain xs → All IsPlain ys → All IsPlain (xs ++ ys)
All-append-plain [] ys p q = q
All-append-plain (x ∷ xs) ys p q = (p.0, All-append-plain xs ys p.1 q)

empty-IsPlain : (P : Type 0) → IsPlain [] → P
unfolding equal
empty-IsPlain P p = absurd (ground (arith, p.not_empty))

-- A name of plain segments is relative, and not empty.
is_absolute-plain : (name : Bytes) → All IsPlain (segments name) → is_absolute name ≡ false
unfolding is_absolute segments split_at
is_absolute-plain [] ps = refl
is_absolute-plain (c ∷ cs) ps = elim (Bool-cases (c == b'/')) [
  | inl slash ↦ empty-IsPlain _ (rw slash at ps).0
  | inr other ↦ other
]

pub segments-given : (name : Bytes) → All IsPlain (segments name) → equal name [] ≡ false
unfolding segments split_at equal
segments-given [] ps = empty-IsPlain _ ps.0
segments-given (c ∷ cs) ps = refl

or_dot-given : (s : Bytes) → equal s [] ≡ false → or_dot s ≡ s
unfolding equal
or_dot-given [] h = cc
or_dot-given (c ∷ cs) h = refl

-- A name of plain segments stays as it is.
pub clean-plain : (name : Bytes) → All IsPlain (segments name) → clean name ≡ name
unfolding clean
clean-plain name ps =
    rw
      (
        clean,
        is_absolute-plain name ps,
        clean_segments-plain false [] (segments name) ps,
        unrooted-segments name,
      )
      (or_dot-given name (segments-given name ps))

-- Such a name below an absolute root.
pub join-plain :
    (r : Bytes) (rs : List Bytes) (name : Bytes)
    → All IsPlain (r ∷ rs)
    → All IsPlain (segments name)
    → equal name [] ≡ false
    → join (rooted (r ∷ rs)) name ≡ rooted ((r ∷ rs) ++ segments name)
unfolding join
join-plain r rs name ps ns e =
    rw (e, rooted-segments name, sym (rooted-append (r ∷ rs) (segments name)))
      (clean-rooted r (rs ++ segments name) (All-append-plain (r ∷ rs) (segments name) ps ns))

strip_common-append : (xs ys : List Bytes) → strip_common xs (xs ++ ys) ≡ ([], ys)
unfolding strip_common
strip_common-append [] ys = refl
strip_common-append (x ∷ xs) ys = rw (equal_refl x) (strip_common-append xs ys)

-- The way from the root to the path is the name again.
pub rel-join :
    (rs : List Bytes) (name : Bytes)
    → All IsPlain rs
    → All IsPlain (segments name)
    → equal name [] ≡ false
    → rel (rooted rs) (rooted (rs ++ segments name)) ≡ some name
unfolding rel
rel-join rs name ps ns e =
    rw
      (
        kept_segments rs ps,
        kept_segments (rs ++ segments name) (All-append-plain rs (segments name) ps ns),
        strip_common-append rs (segments name),
        unrooted-segments name,
      )
      (ap some (or_dot-given name e))
