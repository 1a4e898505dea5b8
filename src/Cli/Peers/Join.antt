-- ===== src/Cli/Peers/Join.antt =====
-- What `peer join` needs before rsync may delete what the store holds.
use mathlib.Core.Path.{subst}
use thimble.Base.{
  ◌≡◌, refl, ap, ◌∙◌, Bool, true, false, List, [], ◌∷◌, ◌⊎◌, inl, inr, Bool-cases, Bytes, codes,
  has_prefix, mem, arith, ◌≤◌, Option, none, some, All,
}
use thimble.Errors.{
  Error, Result, ok, err, ok_inverse, Result-cases, guard-eq-ok, peer_name_empty, peer_name_illegal,
}
use thimble.World.{World, File, missing, corrupt, holds}
use thimble.Store.Manifest.{Manifest}
use thimble.Peer.{validate_peer, validate_target}
use thimble.Cli.Terminal.{Session, returns, proceed, ◌>>=◌}
use thimble.Cli.Peers.{
  Neighbours, is_there, is_large, has_bundle, is_replace, split_flag, with_target, judge_join,
  parse_join_args, refuse_if_store_populated, join_with_target, run_peer_join,
}

-- The file of the manifest is absent or has at most two bytes, and no path at which a bundle can be
-- holds one.
pub record IsVacant (around : Neighbours) (w : World) : Type 0 where
  pub manifest : (w.manifest ≡ missing) ⊎ (around.manifest_bytes w.manifest ≤ 2)
  pub bundles : All (λ path. w.bundles path ≡ none) around.bundle_paths

-- The command went ahead: but for the flag its arguments are one target, which has the form of a
-- target, and either they ask to replace the store or nothing is in it.
pub record MayReplace (around : Neighbours) (args : List Bytes) (s : Session) : Type 0 where
  pub target : Bytes
  pub flag : Bool
  pub asked : split_flag is_replace args ≡ ok (flag, target ∷ [])
  pub valid : validate_target target ≡ ok tt
  pub agreed : (mem (codes "--replace") args ≡ true) ⊎ IsVacant around s.world

is_there-none : (b : Option Bytes) → is_there b ≡ false → b ≡ none
is_there-none none h = refl
is_there-none (some cipher) h = cc

has_bundle-none :
    (w : World) (paths : List Bytes)
    → has_bundle w paths ≡ false
    → All (λ path. w.bundles path ≡ none) paths
unfolding has_bundle
has_bundle-none w [] h = tt
has_bundle-none w (path ∷ paths) h =
    let rest = has_bundle-none w paths in
    elim (Bool-cases (is_there (w.bundles path))) [
      | inl there ↦ let h1 = rw (has_bundle, there) at h in cc
      | inr free ↦ (is_there-none (w.bundles path) free, rest (rw (has_bundle, free) at h))
    ]

is_large-small :
    (around : Neighbours) (f : File Manifest)
    → is_large around f ≡ false
    → (f ≡ missing) ⊎ (around.manifest_bytes f ≤ 2)
is_large-small around missing h = inl refl
is_large-small around corrupt h = inr (ground arith)
is_large-small around (holds m) h = inr (ground arith)

refuse_if_store_populated-IsVacant :
    (around : Neighbours) (w : World)
    → refuse_if_store_populated around w ≡ ok tt
    → IsVacant around w
unfolding refuse_if_store_populated
refuse_if_store_populated-IsVacant around w h = elim (Bool-cases (is_large around w.manifest)) [
  | inl large ↦ let h1 = rw (refuse_if_store_populated, large) at h in cc
  | inr small ↦ elim (Bool-cases around.bad_pattern) [
    | inl bad ↦ let h1 = rw (refuse_if_store_populated, small, bad) at h in cc
    | inr good ↦ elim (Bool-cases (has_bundle w around.bundle_paths)) [
      | inl there ↦ let h1 = rw (refuse_if_store_populated, small, good, there) at h in cc
      | inr free ↦ record {
        manifest = is_large-small around w.manifest small;
        bundles = has_bundle-none w around.bundle_paths free;
      }
    ]
  ]
]

split_flag-replace :
    (args positional : List Bytes)
    → split_flag is_replace args ≡ ok (true, positional)
    → mem (codes "--replace") args ≡ true
unfolding split_flag mem
split_flag-replace [] positional h = cc
split_flag-replace (a ∷ rest) positional h = elim (Bool-cases (is_replace a)) [
  | inl flag ↦ rw flag refl
  | inr other ↦ elim (Bool-cases (has_prefix a (codes "-"))) [
    | inl dash ↦ let h1 = rw (split_flag, other, dash) at h in cc
    | inr word ↦ elim (Result-cases (split_flag is_replace rest)) [
      | inl (e, refused) ↦ let h1 = rw (split_flag, other, word, refused) at h in cc
      | inr ((flag, more), parsed) ↦
          let h1 = rw (split_flag, other, word, parsed) at h in
          let same = ap (λ (p : Bool × List Bytes). p.0) (ok_inverse h1) in
          rw (split_flag-replace rest more (rw same at parsed)) ground arith
    ]
  ]
]

valid_target :
    (target : Bytes)
    → validate_peer (record { name = codes "join-target"; target = target }) ≡ ok tt
    → validate_target target ≡ ok tt
unfolding validate_peer
valid_target target h = (guard-eq-ok _ peer_name_illegal _ (guard-eq-ok _ peer_name_empty _ h).1).1

with_target-eq-ok :
    (r : Result (Unit {0})) (wanted target : Bytes) (asked replace : Bool)
    → with_target wanted asked r ≡ ok (target, replace)
    → (r ≡ ok tt) × (wanted ≡ target) × (asked ≡ replace)
with_target-eq-ok (err e) wanted target asked replace h = cc
with_target-eq-ok (ok tt) wanted target asked replace h = (
  refl,
  ap (λ (p : Bytes × Bool). p.0) (ok_inverse h),
  ap (λ (p : Bytes × Bool). p.1) (ok_inverse h),
)

-- What an accepted list of arguments is.
record Parsed (args : List Bytes) (target : Bytes) (replace : Bool) : Type 0 where
  split : split_flag is_replace args ≡ ok (replace, target ∷ [])
  valid : validate_target target ≡ ok tt

parse_join_args-eq-ok :
    (args : List Bytes) (target : Bytes) (replace : Bool)
    → parse_join_args args ≡ ok (target, replace)
    → Parsed args target replace
unfolding parse_join_args
parse_join_args-eq-ok args target replace h = judged (split_flag is_replace args) refl h
  where
    judged :
        (r : Result (Bool × List Bytes))
        → split_flag is_replace args ≡ r
        → judge_join r ≡ ok (target, replace)
        → Parsed args target replace
    judged (err e) split j = cc
    judged (ok (b, [])) split j = cc
    judged (ok (b, x ∷ [])) split j =
        let (valid, same, asked) =
          with_target-eq-ok (validate_peer (record { name = codes "join-target"; target = x })) x
            target b replace j in
        record {
          split =
              split
              ∙ ap (λ (f : Bool). ok (f, x ∷ [])) asked
              ∙ ap (λ (t : Bytes). ok (replace, t ∷ [])) same;
          valid = subst (λ (t : Bytes). validate_target t ≡ ok tt) same (valid_target x valid);
        }
    judged (ok (b, x ∷ y ∷ rest)) split j = cc

-- The run changed nothing and reports an error.
abbrev pub Refused : Result (Unit {0}) × Session → Session → Type 0
Refused r s = (r.1 ≡ s) × ((e : Error) × (r.0 ≡ err e))

-- A `peer join` ends with an error and leaves the store, the files of the peers and the terminal as
-- they were, unless its arguments are, but for --replace, one target that has the form of a target,
-- and either --replace is among them or the file of the manifest is absent or at most two bytes
-- long and none of the paths at which a bundle can be holds one.
pub run_peer_join-Safe :
    (around : Neighbours) (args : List Bytes) (s : Session)
    → Refused (run_peer_join around args s) s ⊎ MayReplace around args s
unfolding run_peer_join join_with_target ◌>>=◌ returns
run_peer_join-Safe around args s = parsed (parse_join_args args) refl
  where
    going :
        (target : Bytes) (replace : Bool)
        → parse_join_args args ≡ ok (target, replace)
        → Refused (join_with_target around (target, replace) s) s ⊎ MayReplace around args s
    going target true h =
        let p = parse_join_args-eq-ok args target true h in
        inr (record {
          target = target;
          flag = true;
          asked = p.split;
          valid = p.valid;
          agreed = inl (split_flag-replace args (target ∷ []) p.split);
        })
    going target false h = elim (Result-cases (refuse_if_store_populated around s.world)) [
      | inl (e, full) ↦ inl (rw (join_with_target, full) (refl, (e, refl)))
      | inr (u, free) ↦
          let p = parse_join_args-eq-ok args target false h in
          inr (record {
            target = target;
            flag = false;
            asked = p.split;
            valid = p.valid;
            agreed = inr (refuse_if_store_populated-IsVacant around s.world free);
          })
    ]

    parsed :
        (r : Result (Bytes × Bool))
        → parse_join_args args ≡ r
        → Refused (proceed r (join_with_target around) s) s ⊎ MayReplace around args s
    parsed (err e) h = inl (refl, (e, refl))
    parsed (ok (target, replace)) h = going target replace h
