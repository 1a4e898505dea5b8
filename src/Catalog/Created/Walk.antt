-- ===== src/Catalog/Created/Walk.antt =====
-- The directories that Create makes on the way to a store.
use thimble.Base.{
  ◌≡◌, refl, ap, ◌∙◌, Option, none, some, List, [], ◌∷◌, ◌++◌, arith, Bytes, All, Bool-cases, inl,
  inr, equal_refl,
}
use thimble.Errors.{Result, ok, err}
use thimble.World.{next_fails, write_file}
use thimble.Catalog.Paths.{segments, join, rooted}
use thimble.Catalog.Paths.Segments.{IsPlain, join-plain, segments_last, All-append-plain}
use thimble.Catalog.{
  Node, directory, symlink, regular, unreadable, Tree, then_continue, make_directory, enter, walk,
  make_root,
}

-- Directories stay directories, and manifests stay as they are.
pub record Kept (t t' : Tree) : Type 0 where
  pub dirs : (p : Bytes) → t.nodes p ≡ some directory → t'.nodes p ≡ some directory
  pub manifests : t'.manifests ≡ t.manifests

unfoldable pub Done : Result (Unit {0}) × Tree → Type 0
Done m = m.0 ≡ ok tt

pub then_continue-Done :
    (m : Result (Unit {0}) × Tree) (rest : Tree → Result (Unit {0}) × Tree)
    → Done (then_continue m rest)
    → Done m × Done (rest m.1) × (then_continue m rest ≡ rest m.1)
unfolding Done
then_continue-Done (ok done, t) rest h = (refl, h, refl)
then_continue-Done (err e, t) rest h = cc

-- A step after which the path is a directory, and what was one still is.
pub record Entered (p : Bytes) (t t' : Tree) : Type 0 where
  pub kept : Kept t t'
  pub there : t'.nodes p ≡ some directory

write_file-directory :
    (nodes : Bytes → Option Node) (p q : Bytes)
    → nodes q ≡ some directory
    → write_file nodes p (some directory) q ≡ some directory
write_file-directory nodes p q h = ground arith

make_directory-Entered :
    (p : Bytes) (t : Tree) → Done (make_directory p t) → Entered p t (make_directory p t).1
unfolding make_directory Done
make_directory-Entered p t h = elim (Bool-cases (next_fails t.faults)) [
  | inl fails ↦ absurd (ground arith)
  | inr works ↦
      rw (make_directory, works)
        (record {
          kept = record {
            dirs = λ q there. write_file-directory t.nodes p q there;
            manifests = refl;
          };
          there = rw (equal_refl p) refl;
        })
]

Kept-refl : (t : Tree) → Kept t t
Kept-refl t = record { dirs = λ q there. there; manifests = refl }

at_node :
    (p : Bytes) (t : Tree) (n : Option Node)
    → t.nodes p ≡ n
    → Done (enter p t)
    → Entered p t (enter p t).1
unfolding enter Done
at_node p t none h done = rw (enter, h) (make_directory-Entered p t (rw (enter, h) at done))
at_node p t (some directory) h done = rw (enter, h) (record { kept = Kept-refl t; there = h })
at_node p t (some symlink) h done = ground arith
at_node p t (some regular) h done = ground arith
at_node p t (some unreadable) h done = ground arith

enter-Entered : (p : Bytes) (t : Tree) → Done (enter p t) → Entered p t (enter p t).1
enter-Entered p t done = at_node p t (t.nodes p) refl done

pub Kept-trans : (a b c : Tree) → Kept a b → Kept b c → Kept a c
Kept-trans a b c k l = record {
  dirs = λ p there. l.dirs p (k.dirs p there);
  manifests = l.manifests ∙ k.manifests;
}

-- The directories on the way from one path down the segments.
unfoldable pub way : List Bytes → List Bytes → List Bytes
way rs [] = []
way rs (s ∷ ss) = rooted (rs ++ (s ∷ [])) ∷ way (rs ++ (s ∷ [])) ss

abbrev pub AreDirectories : Tree → List Bytes → Type 0
AreDirectories t ps = All (λ p. t.nodes p ≡ some directory) ps

pub record Walked (rs ss : List Bytes) (t t' : Tree) : Type 0 where
  pub kept : Kept t t'
  pub there : AreDirectories t' (way rs ss)

segments_one : (s : Bytes) → IsPlain s → segments s ≡ s ∷ []
unfolding segments
segments_one s p = segments_last s p.no_slash

join-segment :
    (r : Bytes) (rs : List Bytes) (s : Bytes)
    → All IsPlain (r ∷ rs)
    → IsPlain s
    → join (rooted (r ∷ rs)) s ≡ rooted ((r ∷ rs) ++ (s ∷ []))
join-segment r rs s ps p =
    join-plain r rs s ps (rw (segments_one s p) (p, tt)) p.not_empty
    ∙ ap (λ ss. rooted ((r ∷ rs) ++ ss)) (segments_one s p)

pub walk-Walked :
    (r : Bytes) (rs ss : List Bytes) (t : Tree)
    → All IsPlain (r ∷ rs)
    → All IsPlain ss
    → Done (walk (rooted (r ∷ rs)) ss t)
    → Walked (r ∷ rs) ss t (walk (rooted (r ∷ rs)) ss t).1
unfolding walk way
walk-Walked r rs [] t ps qs h = record { kept = Kept-refl t; there = tt }
walk-Walked r rs (s ∷ ss) t ps qs h =
    let step = join-segment r rs s ps qs.0 in
    let (entered, walked, same) =
      then_continue-Done (enter (rooted ((r ∷ rs) ++ (s ∷ []))) t)
        (walk (rooted ((r ∷ rs) ++ (s ∷ []))) ss) (rw (walk, step) at h) in
    let first = enter-Entered (rooted ((r ∷ rs) ++ (s ∷ []))) t entered in
    let later =
      walk-Walked r (rs ++ (s ∷ [])) ss (enter (rooted ((r ∷ rs) ++ (s ∷ []))) t).1
        (All-append-plain (r ∷ rs) (s ∷ []) ps (qs.0, tt)) qs.1 walked in
    rw (walk, step, same)
      (record {
        kept = Kept-trans t (enter (rooted ((r ∷ rs) ++ (s ∷ []))) t).1 _ first.kept later.kept;
        there = (later.kept.dirs (rooted ((r ∷ rs) ++ (s ∷ []))) first.there, later.there);
      })

root_at :
    (root : Bytes) (t : Tree) (n : Option Node)
    → t.nodes root ≡ n
    → Done (make_root root t)
    → Kept t (make_root root t).1
unfolding make_root Done
root_at root t none h done =
    rw (make_root, h) (make_directory-Entered root t (rw (make_root, h) at done)).kept
root_at root t (some directory) h done = rw (make_root, h) (Kept-refl t)
root_at root t (some symlink) h done = rw (make_root, h) (Kept-refl t)
root_at root t (some regular) h done = absurd (ground arith)
root_at root t (some unreadable) h done = absurd (ground arith)

pub make_root-Kept :
    (root : Bytes) (t : Tree) → Done (make_root root t) → Kept t (make_root root t).1
make_root-Kept root t h = root_at root t (t.nodes root) refl h
