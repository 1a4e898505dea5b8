-- ===== src/Catalog/Created.antt =====
-- What Create leaves on the disk.
mod Walk
use thimble.Base.{
  ◌≡◌, refl, sym, ap, ◌∙◌, Bool, true, false, Option, none, some, List, [], ◌∷◌, ◌++◌, ◌==◌,
  if◌then◌else◌, arith, Bytes, codes, All, Bool-cases, Option-cases, inl, inr, equal, equal_iff,
  equal_refl, split_at, push_byte, append_assoc,
}
use thimble.Errors.{Error, Result, Result-cases, bind-eq-ok, ok, err, ◌>>=◌, ◌>>◌}
use thimble.World.{File, missing, corrupt, holds, next_fails, later_faults, write_file}
use thimble.Store.Manifest.{Manifest, empty_manifest}
use thimble.Catalog.Paths.{dot, segments, join, rooted, rel}
use thimble.Catalog.Paths.Segments.{
  split_at-cons, IsPlain, join-plain, rel-join, segments-given, segments_last, All-append-plain,
}
use thimble.Catalog.{
  Selection, Node, directory, symlink, regular, unreadable, Tree, Status, valid_store, inspect,
  status_of, inspect_manifest, then_continue, make_directory, enter, walk, walk_way, make_root,
  make_managed_path, split_path, write_manifest, initialize_manifest, resolve_name, create,
}
use thimble.Catalog.Within.{Below, resolve_name-Below}
use thimble.Catalog.Created.Walk.{
  Done, then_continue-Done, Kept-trans, way, AreDirectories, Walked, walk-Walked, make_root-Kept,
}

-- The store's own directory is the last on the way.
AreDirectories-last :
    (t : Tree) (rs : List Bytes) (s : Bytes) (ss : List Bytes)
    → AreDirectories t (way rs (s ∷ ss))
    → t.nodes (rooted (rs ++ (s ∷ ss))) ≡ some directory
unfolding way
AreDirectories-last t rs s [] h = h.0
AreDirectories-last t rs s (u ∷ ss) h =
    rw (sym (append_assoc rs (s ∷ []) (u ∷ ss))) (AreDirectories-last t (rs ++ (s ∷ [])) u ss h.1)

-- A store that Create has made: all directories below the root on the way to it are directories
-- and no links, and Inspect finds it valid if it had no manifest before.
pub record Created (root : List Bytes) (name : Bytes) (t : Tree) (r : Result Selection × Tree)
    : Type 0 where
  pub selection : Selection
  pub returned : r.0 ≡ ok selection
  pub below : Below root name selection
  pub on_the_way : AreDirectories r.1 (way root (segments name))
  pub usable : t.manifests selection.path ≡ missing → (inspect selection r.1).status ≡ valid_store

-- What the new manifest changes.
record Initialized (p : Bytes) (t t' : Tree) : Type 0 where
  nodes : t'.nodes ≡ t.nodes
  fresh : t.manifests p ≡ missing → t'.manifests p ≡ holds empty_manifest

write_manifest-Initialized :
    (p : Bytes) (t : Tree) → Done (write_manifest p t) → Initialized p t (write_manifest p t).1
unfolding write_manifest Done
write_manifest-Initialized p t h = elim (Bool-cases (next_fails t.faults)) [
  | inl fails ↦ absurd (ground arith)
  | inr opens ↦ elim (Bool-cases (next_fails (later_faults t.faults))) [
    | inl fails ↦ absurd (ground arith)
    | inr writes ↦
        rw (write_manifest, opens, writes)
          (record { nodes = refl; fresh = λ h. rw (equal_refl p) refl })
  ]
]

at_file :
    (p : Bytes) (t : Tree) (f : File Manifest)
    → t.manifests p ≡ f
    → Done (initialize_manifest p t)
    → Initialized p t (initialize_manifest p t).1
unfolding initialize_manifest
at_file p t missing h done =
    rw (initialize_manifest, h)
      (write_manifest-Initialized p t (rw (initialize_manifest, h) at done))
at_file p t corrupt h done = rw (initialize_manifest, h) (record { nodes = refl; fresh = λ e. cc })
at_file p t (holds m) h done =
    rw (initialize_manifest, h) (record { nodes = refl; fresh = λ e. cc })

-- The directories of a managed store.
segments-dot : segments dot ≡ dot ∷ []
unfolding segments split_at push_byte
segments-dot = refl

no_dot_name : (name : Bytes) → All IsPlain (segments name) → equal name dot ≡ false
no_dot_name name ps = elim (Bool-cases (equal name dot)) [
  | inl same ↦
      let d = (rw (segments-dot) at (rw ((equal_iff name dot).0 same) at ps)).0 in
      absurd (ground (arith, equal_refl dot, d.not_dot))
  | inr other ↦ other
]

split_path-name : (name : Bytes) → All IsPlain (segments name) → split_path name ≡ segments name
unfolding split_path
split_path-name name ps = rw (no_dot_name name ps, segments-given name ps) refl

make_managed_path-Walked :
    (r : Bytes) (rs : List Bytes) (name : Bytes) (s : Selection) (t : Tree)
    → All IsPlain (r ∷ rs)
    → Below (r ∷ rs) name s
    → Done (make_managed_path (rooted (r ∷ rs)) s.path t)
    → Walked (r ∷ rs) (segments name) t (make_managed_path (rooted (r ∷ rs)) s.path t).1
unfolding make_managed_path walk_way
make_managed_path-Walked r rs name s t ps b h =
    let to_name =
      ap (rel (rooted (r ∷ rs))) b.path
      ∙ rel-join (r ∷ rs) name ps b.plain (segments-given name b.plain) in
    let (rooted_done, walked, same) =
      then_continue-Done (make_root (rooted (r ∷ rs)) t) (walk_way (rooted (r ∷ rs)) (some name))
        (rw (make_managed_path, to_name) at h) in
    let at_root = make_root-Kept (rooted (r ∷ rs)) t rooted_done in
    let w =
      walk-Walked r rs (segments name) (make_root (rooted (r ∷ rs)) t).1 ps b.plain
        (rw (walk_way, split_path-name name b.plain) at walked) in
    rw (make_managed_path, to_name, same, walk_way, split_path-name name b.plain)
      (record {
        kept = Kept-trans t (make_root (rooted (r ∷ rs)) t).1 _ at_root w.kept;
        there = w.there;
      })

-- what Create does for a selection
abbrev prepare : Bytes → Selection → Tree → Result (Unit {0}) × Tree
prepare root s t = then_continue (make_managed_path root s.path t) (initialize_manifest s.path)

returned_by : (m : Result (Unit {0}) × Tree) (s : Selection) → Done m → (m.0 >> ok s) ≡ ok s
unfolding Done
returned_by m s h = rw h refl

usable_store :
    (s : Selection) (t : Tree)
    → t.nodes s.path ≡ some directory
    → t.manifests s.path ≡ holds empty_manifest
    → (inspect s t).status ≡ valid_store
unfolding inspect
usable_store s t there fresh = rw (there, fresh) refl

store_directory :
    (t : Tree) (rs : List Bytes) (name : Bytes)
    → AreDirectories t (way rs (segments name))
    → t.nodes (rooted (rs ++ segments name)) ≡ some directory
unfolding segments
store_directory t rs name h =
    let (s, ss, e) = split_at-cons name in rw e (AreDirectories-last t rs s ss (rw e at h))

made :
    (r : Bytes) (rs : List Bytes) (name : Bytes) (t : Tree) (s : Selection)
    → All IsPlain (r ∷ rs)
    → Below (r ∷ rs) name s
    → Done (prepare (rooted (r ∷ rs)) s t)
    → Created
        (r ∷ rs)
        name
        t
        ((prepare (rooted (r ∷ rs)) s t).0 >> ok s, (prepare (rooted (r ∷ rs)) s t).1)
made r rs name t s ps b h =
    let (managed, written, same) =
      then_continue-Done (make_managed_path (rooted (r ∷ rs)) s.path t) (initialize_manifest s.path)
        h in
    let w = make_managed_path-Walked r rs name s t ps b managed in
    let i = at_file s.path _ _ refl written in
    record {
      selection = s;
      returned = returned_by _ s h;
      below = b;
      on_the_way = rw (same, i.nodes) w.there;
      usable = λ none_before. rw same (
          usable_store s _
            (rw i.nodes (
              ap (make_managed_path (rooted (r ∷ rs)) s.path t).1.nodes b.path
              ∙ store_directory (make_managed_path (rooted (r ∷ rs)) s.path t).1 (r ∷ rs) name
                  w.there))
            (i.fresh (rw w.kept.manifests none_before)));
    }

-- A store that Create reports below an absolute root of plain segments lies at the path whose
-- segments are the root's and then the name's; each path strictly below the root down to it is a
-- directory and no link, and Inspect finds it valid if it had no manifest before. The root itself
-- may be a link.
pub create-Created :
    (r : Bytes) (rs : List Bytes) (name : Bytes) (t : Tree) (s : Selection)
    → All IsPlain (r ∷ rs)
    → (create (rooted (r ∷ rs)) name t).0 ≡ ok s
    → Created (r ∷ rs) name t (create (rooted (r ∷ rs)) name t)
unfolding create Done
create-Created r rs name t s ps h =
    elim (Result-cases (resolve_name (rooted (r ∷ rs)) (codes "web UI") name)) [
      | inl (e, refused) ↦ absurd (cc (rw (create, refused) at h))
      | inr (selection, found) ↦
          rw (create, found)
            (made r rs name t selection ps
              (resolve_name-Below r rs (codes "web UI") name selection ps found)
              (bind-eq-ok _ _ (rw (create, found) at h)).1)
    ]
