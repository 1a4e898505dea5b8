-- ===== src/Quorum/Verify.antt =====
-- internal/quorum/verify.go: counting the signatures of a pending addition.
pub mod Sound
pub mod Enough
pub mod Match
pub mod Gate
pub mod Signing
use thimble.Base.{
  ℕ, Bool, true, false, not, Option, none, some, List, [], ◌∷◌, ◌++◌, ltb, if◌then◌else◌, Bytes,
  length, mem, map,
}
use thimble.Base.Dict.{Dict, keys}
use thimble.Base.Number.{ℤ, pos, negsuc}
use thimble.Base.Sort.{sort_strings}
use thimble.Outside.{Outside, thumbprint}
use thimble.Errors.{Result, ok, err, no_pending, signatures_missing}
use thimble.World.{World, Io, pure, raise, lift, gets, ◌>>=◌, ◌>>◌, require_some}
use thimble.Quorum.Policy.{Operator, Policy}
use thimble.Quorum.Meta.{Meta}
use thimble.Quorum.Protocol.{
  load_meta, check_meta_matches, VerifyInputs, signature_thumb, find_by_thumb, signature_valid,
}

-- The operator whose valid signature a file is, with the thumbprint in its name.
unfoldable pub signer_of :
    Outside → Meta → Dict Bytes → List Bytes → Bytes → Option (Bytes × Operator)
signer_of o m files seen name = elim (signature_thumb name) [
  | none ↦ none
  | some thumb ↦ if mem thumb seen then none else elim (find_by_thumb o m.policy_operators thumb) [
    | none ↦ none
    | some op ↦ if signature_valid o m files name then some (thumb, op) else none
  ]
]

-- the loop of collectValidSignatures over the names of the directory
unfoldable pub collect :
    Outside → Meta → Dict Bytes → List Bytes → List Operator → List Bytes → List Operator
collect o m files seen out [] = out
collect o m files seen out (name ∷ rest) = elim (signer_of o m files seen name) [
  | none ↦ collect o m files seen out rest
  | some (thumb, op) ↦ collect o m files (thumb ∷ seen) (out ++ (op ∷ [])) rest
]

-- os.ReadDir lists the files by name.
unfoldable pub collect_valid_signatures : Outside → Meta → Dict Bytes → List Operator
collect_valid_signatures o m files = collect o m files [] [] (sort_strings (keys files))

-- describeMissing: the names that have not signed
unfoldable pub missing_names : List Bytes → List Operator → List Bytes
missing_names present [] = []
missing_names present (op ∷ rest) =
    let later = missing_names present rest in if mem op.name present then later else op.name ∷ later

-- len(signers) < meta.QuorumM
abbrev pub below : ℕ → ℤ → Bool
below n (pos m) = ltb n m
below n (negsuc m) = false

abbrev pub threshold : ℤ → ℕ
threshold (pos m) = m
threshold (negsuc m) = 0

pub record VerifyResult : Type 0 where
  pub signer_thumbs : List Bytes
  pub signer_names : List Bytes

unfoldable pub thumbs_of : Outside → List Operator → List Bytes
thumbs_of o [] = []
thumbs_of o (op ∷ rest) = thumbprint o op.recipient ∷ thumbs_of o rest

abbrev pub names_of : List Operator → List Bytes
names_of = map (λ op. op.name)

unfoldable pub count_signers : Outside → Meta → List Operator → Result VerifyResult
count_signers o m signers =
    if below (length signers) m.quorum_m
    then err (
        signatures_missing (length signers) (threshold m.quorum_m)
          (missing_names (names_of signers) m.policy_operators))
    else ok (record { signer_thumbs = thumbs_of o signers; signer_names = names_of signers })

unfoldable pub verify : Outside → VerifyInputs → Io VerifyResult
verify o i = do
  present ← load_meta
  m ← require_some present no_pending
  check_meta_matches m i
  files ← gets (λ w. w.pending)
  lift (count_signers o m (collect_valid_signatures o m files))
