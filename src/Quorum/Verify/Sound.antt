-- ===== src/Quorum/Verify/Sound.antt =====
-- Who Verify counts: distinct operators of the snapshot, each with a signature of the message.
use thimble.Base.{
  ◌≡◌, refl, sym, ap, ◌∙◌, ◌⊎◌, inl, inr, true, false, none, some, List, [], ◌∷◌, ◌++◌, arith,
  Bool-cases, Option-cases, some_inverse, Bytes, equal, equal_iff, mem, IsUnique, All,
}
use thimble.Base.Dict.{Dict, keys}
use thimble.Base.Sort.{sort_strings}
use thimble.Base.Unique.{mem-append, IsUnique-concat}
use thimble.Outside.{Outside, thumbprint}
use thimble.Quorum.Policy.{Operator}
use thimble.Quorum.Meta.{Meta}
use thimble.Quorum.Protocol.{signature_thumb, find_by_thumb, signature_valid}
use thimble.Quorum.Verify.{signer_of, collect, collect_valid_signatures, thumbs_of}

-- The operator stands in the list.
abbrev pub Listed : Operator → List Operator → Type 0
Listed op [] = ⊥
Listed op (x ∷ xs) = (op ≡ x) ⊎ Listed op xs

module _ (o : Outside) (m : Meta) (files : Dict Bytes) where
  -- `op` is an operator of the snapshot, and a file named for its thumbprint holds the message of
  -- the addition, encrypted to the verifier.
  pub record Signed (op : Operator) : Type 0 where
    pub file : Bytes
    pub named_for : signature_thumb file ≡ some (thumbprint o op.recipient)
    pub listed : Listed op m.policy_operators
    pub valid : signature_valid o m files file ≡ true

  find_by_thumb-Listed :
      (ops : List Operator) (thumb : Bytes) (op : Operator)
      → find_by_thumb o ops thumb ≡ some op
      → Listed op ops × (thumbprint o op.recipient ≡ thumb)
  unfolding find_by_thumb
  find_by_thumb-Listed [] thumb op h = cc
  find_by_thumb-Listed (x ∷ xs) thumb op h =
      elim (Bool-cases (equal (thumbprint o x.recipient) thumb)) [
        | inl found ↦
            let e : x ≡ op = some_inverse x op (rw found at h) in
            (
              inl (sym e),
              ap (λ (y : Operator). thumbprint o y.recipient) (sym e) ∙ (equal_iff _ thumb).0 found,
            )
        | inr other ↦
            let (listed, e) = find_by_thumb-Listed xs thumb op (rw other at h) in (inr listed, e)
      ]

  pub signer_parts :
      (seen : List Bytes) (name thumb : Bytes) (op : Operator)
      → signer_of o m files seen name ≡ some (thumb, op)
      → (signature_thumb name ≡ some thumb)
        × (find_by_thumb o m.policy_operators thumb ≡ some op)
        × (signature_valid o m files name ≡ true)
        × (mem thumb seen ≡ false)
  unfolding signer_of
  signer_parts seen name thumb op h = ground arith

  signer_of-Signed :
      (seen : List Bytes) (name thumb : Bytes) (op : Operator)
      → signer_of o m files seen name ≡ some (thumb, op)
      → Signed op × (thumbprint o op.recipient ≡ thumb) × (mem thumb seen ≡ false)
  unfolding signer_of
  signer_of-Signed seen name thumb op h =
      let (e, found, valid, unseen) = signer_parts seen name thumb op h in
      let (listed, same) = find_by_thumb-Listed m.policy_operators thumb op found in
      (
        record { file = name; named_for = e ∙ ap some (sym same); listed = listed; valid = valid },
        same,
        unseen,
      )

  thumbs_of-append :
      (xs : List Operator) (op : Operator)
      → thumbs_of o (xs ++ (op ∷ [])) ≡ thumbs_of o xs ++ (thumbprint o op.recipient ∷ [])
  unfolding thumbs_of
  thumbs_of-append [] op = refl
  thumbs_of-append (x ∷ xs) op = ap (◌∷◌ (thumbprint o x.recipient)) (thumbs_of-append xs op)

  All-concat :
      (xs : List Operator) (op : Operator)
      → All Signed xs
      → Signed op
      → All Signed (xs ++ (op ∷ []))
  All-concat [] op a s = (s, tt)
  All-concat (x ∷ xs) op a s = (a.0, All-concat xs op a.1 s)

  -- What the loop has counted: `seen` holds the thumbprints of the operators in `out`.
  pub record Counted (seen : List Bytes) (out : List Operator) : Type 0 where
    pub unique : IsUnique (thumbs_of o out)
    pub same : (t : Bytes) → mem t seen ≡ mem t (thumbs_of o out)
    pub signed : All Signed out

  pub Counted-nil : Counted [] []
  unfolding thumbs_of
  Counted-nil = record { unique = tt; same = λ t. refl; signed = tt }

  pub Counted-next :
      (seen : List Bytes) (out : List Operator) (name thumb : Bytes) (op : Operator)
      → signer_of o m files seen name ≡ some (thumb, op)
      → Counted seen out
      → Counted (thumb ∷ seen) (out ++ (op ∷ []))
  Counted-next seen out name thumb op h c =
      let (signed, e, unseen) = signer_of-Signed seen name thumb op h in
      record {
        unique = rw (thumbs_of-append out op) (
            IsUnique-concat (thumbs_of o out) (thumbprint o op.recipient) c.unique
              (sym (c.same (thumbprint o op.recipient)) ∙ ap (λ t. mem t seen) e ∙ unseen));
        same = λ t. rw (thumbs_of-append out op) (
            rw (mem-append t (thumbs_of o out) (thumbprint o op.recipient ∷ []))
              (unfold mem in ground (arith, c.same t, e)));
        signed = All-concat out op c.signed signed;
      }

  pub collect_skip :
      (seen : List Bytes) (out : List Operator) (name : Bytes) (rest : List Bytes)
      → signer_of o m files seen name ≡ none
      → collect o m files seen out (name ∷ rest) ≡ collect o m files seen out rest
  unfolding collect
  collect_skip seen out name rest e = rw (e, collect)

  pub collect_count :
      (seen : List Bytes) (out : List Operator) (name thumb : Bytes) (op : Operator)
      (rest : List Bytes)
      → signer_of o m files seen name ≡ some (thumb, op)
      → collect o m files seen out (name ∷ rest)
        ≡ collect o m files (thumb ∷ seen) (out ++ (op ∷ [])) rest
  unfolding collect
  collect_count seen out name thumb op rest e = rw (e, collect)

  -- The loop keeps the invariant.
  pub collect-Counted :
      (seen : List Bytes) (out : List Operator) (names : List Bytes)
      → Counted seen out
      → (seen' : List Bytes) × Counted seen' (collect o m files seen out names)
  collect-Counted seen out [] c = (seen, unfold collect in c)
  collect-Counted seen out (name ∷ rest) c = elim (Option-cases (signer_of o m files seen name)) [
    | inl skip ↦ rw (collect_skip seen out name rest skip) (collect-Counted seen out rest c)
    | inr ((thumb, op), counted) ↦ rw (collect_count seen out name thumb op rest counted) (
        collect-Counted (thumb ∷ seen) (out ++ (op ∷ [])) rest
          (Counted-next seen out name thumb op counted c))
  ]

  -- The operators counted have distinct thumbprints, and each has signed.
  pub collect_valid_signatures-Counted :
      IsUnique (thumbs_of o (collect_valid_signatures o m files))
      × All Signed (collect_valid_signatures o m files)
  unfolding collect_valid_signatures
  collect_valid_signatures-Counted =
      let (_, c) = collect-Counted [] [] (sort_strings (keys files)) Counted-nil in
      (c.unique, c.signed)
