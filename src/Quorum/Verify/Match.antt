-- ===== src/Quorum/Verify/Match.antt =====
-- internal/quorum/verify.go: the comparison of the pending addition with the request, and the threshold.
use thimble.Base.{
  ℕ, ◌≤◌, ◌≡◌, refl, sym, ap, ◌∙◌, Bool, true, false, ◌&&◌, arith, Bytes, equal, equal_iff, &&_left,
  &&_right,
}
use thimble.Base.Number.{ℤ, pos, negsuc}
use thimble.Errors.{Error, Result, ok}
use thimble.World.Steps.{err_not_ok, check-eq-ok, check_pass}
use thimble.World.{World, pure, raise, check}
use thimble.Quorum.Meta.{Meta}
use thimble.Quorum.Protocol.{check_meta_matches, same_integer, VerifyInputs}
use thimble.Quorum.Verify.{below, threshold}

-- The pending addition is the one that the maintainer finalizes, at the same bundle and threshold.
pub record Matches (m : Meta) (i : VerifyInputs) : Type 0 where
  pub same_app : m.app ≡ i.app
  pub same_env : m.env ≡ i.env
  pub same_recipient : m.new_recipient ≡ i.new_recipient
  pub same_bundle : m.bundle_sha ≡ i.bundle_sha
  pub same_quorum : m.quorum_m ≡ i.policy.m

same_integer_iff : (a b : ℤ) → same_integer a b ≡ true → a ≡ b
same_integer_iff (pos a) (pos b) h = ground arith
same_integer_iff (negsuc a) (negsuc b) h = ground arith
same_integer_iff (pos a) (negsuc b) h = cc
same_integer_iff (negsuc a) (pos b) h = cc

same_integer_refl : (a : ℤ) → same_integer a a ≡ true
same_integer_refl (pos a) = ground arith
same_integer_refl (negsuc a) = ground arith

same_state :
    (b : Bool) (e : Error) {w w' : World} → check b e w ≡ (ok tt, w') → (b ≡ true) × (w' ≡ w)
unfolding check pure raise
same_state true e h = (refl, sym (ap (λ (p : Result (Unit {0}) × World). p.1) h))
same_state false e h = elim (err_not_ok h) [ ]

pub check_meta_matches-Matches :
    (m : Meta) (i : VerifyInputs) (w w' : World)
    → check_meta_matches m i w ≡ (ok tt, w')
    → Matches m i × (w' ≡ w)
unfolding check_meta_matches
check_meta_matches-Matches m i w w' h =
    let (namespace, h1) = check-eq-ok (equal m.app i.app && equal m.env i.env) _ _ w h in
    let (recipient, h2) = check-eq-ok (equal m.new_recipient i.new_recipient) _ _ w h1 in
    let (bundle, h3) = check-eq-ok (equal m.bundle_sha i.bundle_sha) _ _ w h2 in
    let (quorum, same) = same_state (same_integer m.quorum_m i.policy.m) _ h3 in
    (
      record {
        same_app = (equal_iff m.app i.app).0 (&&_left _ _ namespace);
        same_env = (equal_iff m.env i.env).0 (&&_right _ _ namespace);
        same_recipient = (equal_iff _ _).0 recipient;
        same_bundle = (equal_iff _ _).0 bundle;
        same_quorum = same_integer_iff m.quorum_m i.policy.m quorum;
      },
      same,
    )

check-true : {b : Bool} (e : Error) (w : World) → b ≡ true → check b e w ≡ (ok tt, w)
unfolding check pure
check-true {b = true} e w h = refl
check-true {b = false} e w h = cc

equal_of : {a b : Bytes} → a ≡ b → equal a b ≡ true
equal_of {a} {b} e = (equal_iff a b).1 e

pub Matches-check_meta_matches :
    (m : Meta) (i : VerifyInputs) (w : World) → Matches m i → check_meta_matches m i w ≡ (ok tt, w)
unfolding check_meta_matches
Matches-check_meta_matches m i w h =
    check_pass (equal m.app i.app && equal m.env i.env) _ _ w
      (ground (arith, equal_of h.same_app, equal_of h.same_env))
    ∙ check_pass (equal m.new_recipient i.new_recipient) _ _ w (equal_of h.same_recipient)
    ∙ check_pass (equal m.bundle_sha i.bundle_sha) _ _ w (equal_of h.same_bundle)
    ∙ check-true _ w (rw h.same_quorum (same_integer_refl i.policy.m))

pub below-threshold : (n : ℕ) (q : ℤ) → below n q ≡ false → threshold q ≤ n
below-threshold n (pos m) h = ground arith
below-threshold n (negsuc m) h = omega arith

pub threshold-below : (n : ℕ) (q : ℤ) → threshold q ≤ n → below n q ≡ false
threshold-below n (pos m) h = ground arith
threshold-below n (negsuc m) h = refl
