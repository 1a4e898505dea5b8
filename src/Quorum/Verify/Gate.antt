-- ===== src/Quorum/Verify/Gate.antt =====
-- Verify as a whole: when the gate opens.
use thimble.Base.{
  ◌≤◌, ◌≡◌, refl, sym, ap, ◌∙◌, Bool, true, false, Option, some, List, arith, Bytes, if◌then◌else◌,
  length, IsUnique, All,
}
use thimble.Base.Dict.{Dict, keys}
use thimble.Outside.{Outside}
use thimble.Errors.{Error, no_pending, Result, ok, err, ok_inverse}
use thimble.World.Steps.{bind-eq-ok, bind_run, require_some-eq-ok, require_some_run}
use thimble.World.{World, Io, lift, gets, File, missing, corrupt, holds, ◌>>=◌}
use thimble.Quorum.Policy.{Operator}
use thimble.Quorum.Meta.{Meta}
use thimble.Quorum.Protocol.{load_meta, decode_meta, check_meta_matches, VerifyInputs}
use thimble.Quorum.Verify.{
  collect_valid_signatures, thumbs_of, names_of, count_signers, below, threshold, VerifyResult,
  verify,
}
use thimble.Quorum.Verify.Sound.{Signed, collect_valid_signatures-Counted}
use thimble.Quorum.Verify.Enough.{HasSigned, length-le-collect, length-thumbs_of}
use thimble.Quorum.Verify.Match.{
  Matches, check_meta_matches-Matches, Matches-check_meta_matches, below-threshold, threshold-below,
}

-- What the signatures of a directory establish, by the result that names the signers.
pub record Approved (o : Outside) (m : Meta) (files : Dict Bytes) (r : VerifyResult) : Type 0 where
  pub signers : List Operator
  pub thumbs_are : r.signer_thumbs ≡ thumbs_of o signers
  pub names_are : r.signer_names ≡ names_of signers
  pub distinct : IsUnique (thumbs_of o signers)
  pub enough : threshold m.quorum_m ≤ length signers
  pub signed : All (Signed o m files) signers

-- What a successful Verify has established.
pub record Opened (o : Outside) (i : VerifyInputs) (w : World) (r : VerifyResult) : Type 0 where
  pub m : Meta
  pub prepared : w.meta ≡ holds m
  pub matches : Matches m i
  pub approved : Approved o m w.pending r

decode_meta-eq-ok : (f : File Meta) (m : Meta) → decode_meta f ≡ ok (some m) → f ≡ holds m
unfolding decode_meta
decode_meta-eq-ok missing m h = cc
decode_meta-eq-ok corrupt m h = cc
decode_meta-eq-ok (holds n) m h = ground arith

decode_meta-version : (m : Meta) → m.version ≡ 1 → decode_meta (holds m) ≡ ok (some m)
unfolding decode_meta
decode_meta-version m h = ground arith

load_meta-eq-ok :
    (w w' : World) (present : Option Meta)
    → load_meta w ≡ (ok present, w')
    → (decode_meta w.meta ≡ ok present) × (w' ≡ w)
unfolding load_meta
load_meta-eq-ok w w' present h = (
  ap (λ (p : Result (Option Meta) × World). p.0) h,
  sym (ap (λ (p : Result (Option Meta) × World). p.1) h),
)

if_error :
    {A : Type 0} (b : Bool) (e : Error) (v r : A)
    → (if b then err e else ok v) ≡ ok r
    → (r ≡ v) × (b ≡ false)
if_error true e v r h = cc
if_error false e v r h = (sym (ok_inverse h), refl)

pub load_meta_holds :
    (w : World) (m : Meta) → w.meta ≡ holds m → m.version ≡ 1 → load_meta w ≡ (ok (some m), w)
unfolding load_meta
load_meta_holds w m held version =
    ap (λ (r : Result (Option Meta)). (r, w)) (ap decode_meta held ∙ decode_meta-version m version)

count_signers-eq-ok :
    (o : Outside) (m : Meta) (signers : List Operator) (r : VerifyResult)
    → count_signers o m signers ≡ ok r
    → (r.signer_thumbs ≡ thumbs_of o signers)
      × (r.signer_names ≡ names_of signers)
      × (below (length signers) m.quorum_m ≡ false)
unfolding count_signers
count_signers-eq-ok o m signers r h =
    let (same, below_false) = if_error (below (length signers) m.quorum_m) _ _ r h in
    (
      ap (λ (v : VerifyResult). v.signer_thumbs) same,
      ap (λ (v : VerifyResult). v.signer_names) same,
      below_false,
    )

count_signers_enough :
    (o : Outside) (m : Meta) (signers : List Operator)
    → below (length signers) m.quorum_m ≡ false
    → count_signers o m signers
      ≡ ok (record { signer_thumbs = thumbs_of o signers; signer_names = names_of signers })
unfolding count_signers
count_signers_enough o m signers h = rw h refl

-- The end of Verify.
count_files : Outside → Meta → Io VerifyResult
count_files o m =
    gets (λ w. w.pending) >>= λ files. lift (count_signers o m (collect_valid_signatures o m files))

count_files-Approved :
    (o : Outside) (m : Meta) (w w' : World) (r : VerifyResult)
    → count_files o m w ≡ (ok r, w')
    → Approved o m w.pending r × (w' ≡ w)
unfolding count_files gets lift ◌>>=◌
count_files-Approved o m w w' r h =
    let signers = collect_valid_signatures o m w.pending in
    let counted : count_signers o m signers ≡ ok r =
      ap (λ (p : Result VerifyResult × World). p.0) h in
    let parts = count_signers-eq-ok o m signers r counted in
    let sound = collect_valid_signatures-Counted o m w.pending in
    (
      record {
        signers = signers;
        thumbs_are = parts.0;
        names_are = parts.1;
        distinct = sound.0;
        enough = below-threshold (length signers) m.quorum_m parts.2;
        signed = sound.1;
      },
      sym (ap (λ (p : Result VerifyResult × World). p.1) h),
    )

count_files_run :
    (o : Outside) (m : Meta) (w : World)
    → count_files o m w ≡ (count_signers o m (collect_valid_signatures o m w.pending), w)
unfolding count_files gets lift ◌>>=◌
count_files_run o m w = refl

match_then_count : Outside → VerifyInputs → Meta → Io VerifyResult
match_then_count o i m = check_meta_matches m i >>= λ _. count_files o m

match_then_count-Approved :
    (o : Outside) (i : VerifyInputs) (m : Meta) (w w' : World) (r : VerifyResult)
    → match_then_count o i m w ≡ (ok r, w')
    → Matches m i × Approved o m w.pending r × (w' ≡ w)
unfolding match_then_count
match_then_count-Approved o i m w w' r h =
    let (_, w1, checked, counted) =
      bind-eq-ok (check_meta_matches m i) (λ _. count_files o m) w h in
    let (matches, same) = check_meta_matches-Matches m i w w1 checked in
    let (approved, kept) = count_files-Approved o m w w' r (rw same at counted) in
    (matches, approved, kept)

-- Verify succeeds only if the pending addition is for the same namespace, recipient, bundle and
-- threshold, and as many operators of its snapshot as the threshold says, with pairwise distinct
-- thumbprints, each have a signature file that decrypts to its message. The result names them,
-- and the state stays as it was.
pub verify-Opened :
    (o : Outside) (i : VerifyInputs) (w w' : World) (r : VerifyResult)
    → verify o i w ≡ (ok r, w')
    → Opened o i w r × (w' ≡ w)
unfolding verify match_then_count count_files
verify-Opened o i w w' r h =
    let (present, w1, loaded, h1) = bind-eq-ok load_meta _ w h in
    let (decoded, same) = load_meta-eq-ok w w1 present loaded in
    let (m, some_m, h2) = require_some-eq-ok present no_pending (match_then_count o i) w1 h1 in
    let (matches, approved, kept) = match_then_count-Approved o i m w w' r (rw same at h2) in
    (
      record {
        m = m;
        prepared = decode_meta-eq-ok w.meta m (decoded ∙ ap ok some_m);
        matches = matches;
        approved = approved;
      },
      kept,
    )

-- Verify succeeds, and changes nothing, when the pending addition has the version that the program
-- writes and is for the same namespace, recipient, bundle and threshold, and the directory holds a
-- valid signature for each of a list of distinct thumbprints as long as the threshold.
pub verify_succeeds :
    (o : Outside) (i : VerifyInputs) (w : World) (m : Meta) (thumbs : List Bytes)
    → w.meta ≡ holds m
    → m.version ≡ 1
    → Matches m i
    → IsUnique thumbs
    → All (HasSigned o m w.pending (keys w.pending)) thumbs
    → threshold m.quorum_m ≤ length thumbs
    → (r : VerifyResult) × (verify o i w ≡ (ok r, w))
unfolding verify match_then_count count_files
verify_succeeds o i w m thumbs held version matches unique signed enough = (
  record { signer_thumbs = thumbs_of o signers; signer_names = names_of signers },
  bind_run load_meta _ w w (some m) (load_meta_holds w m held version)
      ∙ require_some_run m no_pending (match_then_count o i) w
      ∙ bind_run (check_meta_matches m i) (λ _. count_files o m) w w tt
          (Matches-check_meta_matches m i w matches)
      ∙ count_files_run o m w
      ∙ ap (λ (p : Result VerifyResult). (p, w))
          (count_signers_enough o m signers (
            threshold-below (length signers) m.quorum_m (
              omega (
                arith,
                length-le-collect o m w.pending thumbs unique signed,
                length-thumbs_of o signers,
              )))),
)
  where
    signers : List Operator
    signers = collect_valid_signatures o m w.pending
