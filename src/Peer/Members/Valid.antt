-- ===== src/Peer/Members/Valid.antt =====
-- Which lists of peers pass the validation of the file.
use thimble.Base.{
  ℕ, ◌+◌, ◌≡◌, refl, sym, ◌↔◌, Bool, true, false, not, Option, none, some, List, [], ◌∷◌, arith,
  split_at, Bytes, All, equal, mem, IsUnique, contains,
}
use thimble.Base.Unique.{Unseen, Unseen-cons, Unseen-weaken, Unseen-nil}
use thimble.Base.Space.{trim_space, trim_space-nil}
use thimble.Errors.{
  ok, bind-eq-ok, ok_inverse, peer_name_empty, peer_name_illegal, guard-eq-ok, peer_target_empty,
  target_forbidden,
}
use thimble.Peer.{Peer, illegal_in_name, forbidden_in_target, validate_peer, validate_target, names}
use thimble.Peer.File.{
  nothing_read, parse_lines, check_peers, finalize_peers, parse_peers, load_peers,
}

abbrev pub IsValid : Peer → Type 0
IsValid p = validate_peer p ≡ ok tt

-- Every peer passes the validation, and no two have the same name.
pub record IsMembership (ps : List Peer) : Type 0 where
  pub valid : All IsValid ps
  pub distinct : IsUnique (names ps)

record Checked (seen : List Bytes) (ps : List Peer) : Type 0 where
  membership : IsMembership ps
  unseen : Unseen seen (names ps)

false_of_not : (b : Bool) → not b ≡ true → b ≡ false
false_of_not true h = cc
false_of_not false h = refl

trimmed-given : (s : Bytes) → equal (trim_space s) [] ≡ false → equal s [] ≡ false
unfolding equal
trimmed-given [] h = cc (h, trim_space-nil)
trimmed-given (c ∷ cs) h = refl

-- What the validation of a peer found.
pub validate_peer-eq-ok :
    (p : Peer)
    → validate_peer p ≡ ok tt
    → (equal p.name [] ≡ false)
      × (contains illegal_in_name p.name ≡ false)
      × (equal p.target [] ≡ false)
      × (contains forbidden_in_target p.target ≡ false)
unfolding validate_peer validate_target
validate_peer-eq-ok p h =
    let (spaced, later) = guard-eq-ok (not (equal (trim_space p.name) [])) peer_name_empty _ h in
    let (legal, rest) =
      guard-eq-ok (not (contains illegal_in_name p.name)) peer_name_illegal _ later in
    let (targeted, shape) = guard-eq-ok (not (equal p.target [])) peer_target_empty _ rest in
    let (allowed, _) =
      guard-eq-ok (not (contains forbidden_in_target p.target)) target_forbidden _ shape in
    (
      trimmed-given p.name (false_of_not _ spaced),
      false_of_not _ legal,
      false_of_not _ targeted,
      false_of_not _ allowed,
    )

first_checked :
    (i : ℕ) (seen : List Bytes) (p : Peer) (ps : List Peer)
    → check_peers i seen (p ∷ ps) ≡ ok tt
    → (mem p.name seen ≡ false)
      × (validate_peer p ≡ ok tt)
      × (check_peers (i + 1) (p.name ∷ seen) ps ≡ ok tt)
unfolding check_peers
first_checked i seen p ps h = ground arith

check_peers-Checked :
    (i : ℕ) (seen : List Bytes) (ps : List Peer) → check_peers i seen ps ≡ ok tt → Checked seen ps
check_peers-Checked i seen [] h = record {
  membership = record { valid = tt; distinct = tt };
  unseen = tt;
}
check_peers-Checked i seen (p ∷ ps) h =
    let (new, valid, later) = first_checked i seen p ps h in
    let c = check_peers-Checked (i + 1) (p.name ∷ seen) ps later in
    let (apart, unseen) = Unseen-cons p.name seen (names ps) c.unseen in
    record {
      membership = record {
        valid = (valid, c.membership.valid);
        distinct = (apart, c.membership.distinct);
      };
      unseen = (new, unseen);
    }

Checked-check_peers :
    (i : ℕ) (seen : List Bytes) (ps : List Peer) → Checked seen ps → check_peers i seen ps ≡ ok tt
unfolding check_peers
Checked-check_peers i seen [] c = refl
Checked-check_peers i seen (p ∷ ps) c =
    let (named, _, targeted, _) = validate_peer-eq-ok p c.membership.valid.0 in
    let later = Checked-check_peers (i + 1) (p.name ∷ seen) ps (record {
      membership = record { valid = c.membership.valid.1; distinct = c.membership.distinct.1 };
      unseen = Unseen-weaken p.name seen (names ps) c.membership.distinct.0 c.unseen.1;
    }) in
    rw (named, targeted, c.unseen.0, c.membership.valid.0) later

-- The validation at the end of parsePeers accepts exactly the lists whose peers are each valid
-- and have distinct names, and returns them as they are.
pub finalize_peers_iff : (ps : List Peer) → (finalize_peers ps ≡ ok ps) ↔ IsMembership ps
unfolding finalize_peers
finalize_peers_iff ps = (
  λ h.
      let (_, checked, _) = bind-eq-ok (check_peers 0 [] ps) _ h in
      (check_peers-Checked 0 [] ps checked).membership,
  λ m.
      rw (Checked-check_peers 0 [] ps (record { membership = m; unseen = Unseen-nil (names ps) }))
        refl,
)

finalize_peers-IsMembership : (ps qs : List Peer) → finalize_peers ps ≡ ok qs → IsMembership qs
unfolding finalize_peers
finalize_peers-IsMembership ps qs h =
    let (_, checked, same) = bind-eq-ok (check_peers 0 [] ps) _ h in
    rw (sym (ok_inverse same)) (check_peers-Checked 0 [] ps checked).membership

pub load_peers-IsMembership :
    (file : Option Bytes) (ps : List Peer) → load_peers file ≡ ok ps → IsMembership ps
unfolding load_peers parse_peers
load_peers-IsMembership none ps h = rw (sym (ok_inverse h)) (record { valid = tt; distinct = tt })
load_peers-IsMembership (some raw) ps h =
    let (r, _, finalized) =
      bind-eq-ok (parse_lines 0 (split_at b'\n' raw) nothing_read) (λ r. finalize_peers r.peers)
        h in
    finalize_peers-IsMembership r.peers ps finalized
