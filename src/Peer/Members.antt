-- ===== src/Peer/Members.antt =====
-- What every list of peers that the manager holds is like.
pub mod Valid
use thimble.Base.{
  ℕ, ◌+◌, ◌≡◌, refl, sym, ap, ◌↔◌, Bool, true, false, not, Option, none, some, List, [], ◌∷◌, ◌++◌,
  arith, split_at, Bytes, Bool-cases, Option-cases, ◌⊎◌, inl, inr, All, equal, equal_iff,
  equal_refl, mem, IsUnique, contains,
}
use thimble.Base.Unique.{Unseen, Unseen-cons, Unseen-weaken, Unseen-nil, IsUnique-concat}
use thimble.Base.Space.{trim_space, trim_space-nil}
use thimble.Errors.{
  ok, bind-eq-ok, ok_inverse, peer_name_empty, peer_name_illegal, guard-eq-ok, peer_target_empty,
  target_forbidden,
}
use thimble.Peer.{
  Peer, illegal_in_name, forbidden_in_target, validate_peer, validate_target, find_peer, add_peer,
  drop_peer, remove_peer, names,
}
use thimble.Peer.File.{
  nothing_read, parse_lines, check_peers, finalize_peers, parse_peers, load_peers,
}
use thimble.Peer.Members.Valid.{IsValid, IsMembership, load_peers-IsMembership}

AllValid-concat :
    (xs : List Peer) (y : Peer) → All IsValid xs → IsValid y → All IsValid (xs ++ (y ∷ []))
AllValid-concat [] y a p = (p, tt)
AllValid-concat (x ∷ xs) y a p = (a.0, AllValid-concat xs y a.1 p)

find_peer-none :
    (ps : List Peer) (name : Bytes) → mem name (names ps) ≡ false → find_peer ps name ≡ none
unfolding mem find_peer
find_peer-none [] name m = refl
find_peer-none (p ∷ ps) name m = ground (arith, find_peer-none ps name)

absent_name :
    (ps : List Peer) (name : Bytes) → find_peer ps name ≡ none → mem name (names ps) ≡ false
unfolding mem find_peer
absent_name [] name m = refl
absent_name (p ∷ ps) name m = ground (arith, absent_name ps name)

names-concat : (ps : List Peer) (p : Peer) → names (ps ++ (p ∷ [])) ≡ names ps ++ (p.name ∷ [])
names-concat [] p = refl
names-concat (q ∷ ps) p = ap (◌∷◌ q.name) (names-concat ps p)

-- What an addition that succeeds found and did.
pub add_peer-eq-ok :
    (ps qs : List Peer) (p : Peer)
    → add_peer ps p ≡ ok qs
    → (validate_peer p ≡ ok tt) × (find_peer ps p.name ≡ none) × (qs ≡ ps ++ (p ∷ []))
unfolding add_peer
add_peer-eq-ok ps qs p h = ground arith

-- The removal drops the first peer, or one of the others.
pub drop_peer-eq-some :
    (p : Peer) (ps qs : List Peer) (name : Bytes)
    → drop_peer name (p ∷ ps) ≡ some qs
    → ((equal p.name name ≡ true) × (qs ≡ ps))
      ⊎ ((rest : List Peer) × (equal p.name name ≡ false)
          × (drop_peer name ps ≡ some rest)
          × (qs ≡ p ∷ rest))
unfolding drop_peer
drop_peer-eq-some p ps qs name h = elim (Bool-cases (equal p.name name)) [
  | inl same ↦ inl (same, ground arith)
  | inr other ↦ elim (Option-cases (drop_peer name ps)) [
    | inl stays ↦ absurd (ground arith)
    | inr (rest, found) ↦ inr (rest, other, found, ground arith)
  ]
]

pub drop_peer-found :
    (ps : List Peer) (p : Peer)
    → find_peer ps p.name ≡ none
    → drop_peer p.name (ps ++ (p ∷ [])) ≡ some ps
unfolding drop_peer find_peer
drop_peer-found [] p h = rw (equal_refl p.name) refl
drop_peer-found (q ∷ ps) p h = ground (arith, drop_peer-found ps p)

-- What a removal leaves of a list with distinct names.
pub record Removed (name : Bytes) (ps qs : List Peer) : Type 0 where
  pub valid : All IsValid ps → All IsValid qs
  pub fewer : (j : Bytes) → mem j (names ps) ≡ false → mem j (names qs) ≡ false
  pub distinct : IsUnique (names qs)
  pub gone : find_peer qs name ≡ none
  pub others : (j : Bytes) → equal name j ≡ false → find_peer qs j ≡ find_peer ps j

pub drop_peer-Removed :
    (ps qs : List Peer) (name : Bytes)
    → IsUnique (names ps)
    → drop_peer name ps ≡ some qs
    → Removed name ps qs
unfolding drop_peer find_peer mem
drop_peer-Removed [] qs name u h = cc
drop_peer-Removed (p ∷ ps) qs name u h = elim (drop_peer-eq-some p ps qs name h) [
  | inl (same, is_rest) ↦ rw is_rest (record {
    valid = λ v. v.1;
    fewer = λ j m. ground arith;
    distinct = u.1;
    gone = find_peer-none ps name (rw (sym ((equal_iff p.name name).0 same)) u.0);
    others = λ j other. ground (arith, equal_iff p.name name, equal_iff p.name j, equal_iff name j);
  })
  | inr (rest, other, found, is_more) ↦
      let r = drop_peer-Removed ps rest name u.1 found in
      rw is_more (record {
        valid = λ v. (v.0, r.valid v.1);
        fewer = λ j m. ground (arith, r.fewer j);
        distinct = (r.fewer p.name u.0, r.distinct);
        gone = ground (arith, r.gone);
        others = λ j apart. ground (arith, r.others j apart);
      })
]

-- The managers that a run of the program can hold: one that was loaded, and what the additions
-- and the removals make of it.
pub data Reached : List Peer → Type 0 where
  loaded : (file : Option Bytes) (ps : List Peer) → load_peers file ≡ ok ps → Reached ps
  added : (ps qs : List Peer) (p : Peer) → Reached ps → add_peer ps p ≡ ok qs → Reached qs
  removed :
      (ps qs : List Peer) (name : Bytes) → Reached ps → remove_peer ps name ≡ ok qs → Reached qs

add_peer-IsMembership :
    (ps qs : List Peer) (p : Peer) → IsMembership ps → add_peer ps p ≡ ok qs → IsMembership qs
add_peer-IsMembership ps qs p m h =
    let (valid, new, is_longer) = add_peer-eq-ok ps qs p h in
    rw is_longer (record {
      valid = AllValid-concat ps p m.valid valid;
      distinct =
          rw (names-concat ps p)
            (IsUnique-concat (names ps) p.name m.distinct (absent_name ps p.name new));
    })

pub remove_peer-eq-ok :
    (ps qs : List Peer) (name : Bytes) → remove_peer ps name ≡ ok qs → drop_peer name ps ≡ some qs
unfolding remove_peer
remove_peer-eq-ok ps qs name h = ground arith

-- Every manager that a run can hold has valid peers with distinct names.
pub Reached-IsMembership : (ps : List Peer) → Reached ps → IsMembership ps
Reached-IsMembership ps (loaded file _ h) = load_peers-IsMembership file ps h
Reached-IsMembership ps (added before _ p r h) =
    add_peer-IsMembership before ps p (Reached-IsMembership before r) h
Reached-IsMembership ps (removed before _ name r h) =
    let m = Reached-IsMembership before r in
    let d = drop_peer-Removed before ps name m.distinct (remove_peer-eq-ok before ps name h) in
    record { valid = d.valid m.valid; distinct = d.distinct }

-- A removal that succeeds on a manager drops the peer of that name and finds the others as before.
pub remove_peer-Removed :
    (ps qs : List Peer) (name : Bytes)
    → Reached ps
    → remove_peer ps name ≡ ok qs
    → Removed name ps qs
remove_peer-Removed ps qs name r h =
    drop_peer-Removed ps qs name (Reached-IsMembership ps r).distinct
      (remove_peer-eq-ok ps qs name h)

-- An addition that succeeded is undone by the removal of the peer it added.
pub remove_peer-add_peer :
    (ps qs : List Peer) (p : Peer) → add_peer ps p ≡ ok qs → remove_peer qs p.name ≡ ok ps
unfolding remove_peer
remove_peer-add_peer ps qs p h =
    let (_, new, is_longer) = add_peer-eq-ok ps qs p h in
    rw (is_longer, remove_peer, drop_peer-found ps p new) refl
