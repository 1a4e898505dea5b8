-- ===== src/Quorum/Verify/Enough.antt =====
-- Enough valid signatures pass, and a pass needs enough of them.
use thimble.Base.{
  suc, ◌≤◌, ◌≡◌, refl, sym, ap, ◌∙◌, ◌⊎◌, inl, inr, true, some, List, [], ◌∷◌, ◌++◌, arith,
  Bool-cases, Option-cases, Bytes, length, equal_iff, mem, IsUnique, All,
}
use thimble.Base.Dict.{Dict, keys}
use thimble.Base.Sort.{sort_strings, mem-sort_strings}
use thimble.Base.Unique.{Within, length-Within}
use thimble.Outside.{Outside}
use thimble.Quorum.Policy.{Operator}
use thimble.Quorum.Meta.{Meta}
use thimble.Quorum.Protocol.{signature_thumb, find_by_thumb, signature_valid}
use thimble.Quorum.Verify.{signer_of, collect, collect_valid_signatures, thumbs_of}
use thimble.Quorum.Verify.Sound.{Counted, Counted-nil, Counted-next, collect_skip, collect_count}

no_mem : (t : Bytes) → mem t [] ≡ true → ⊥
unfolding mem
no_mem t h = cc

mem_cases : (t x : Bytes) (xs : List Bytes) → mem t (x ∷ xs) ≡ true → (x ≡ t) ⊎ (mem t xs ≡ true)
unfolding mem
mem_cases t x xs h = ground (arith, equal_iff x t)

later_mem : (t x : Bytes) (xs : List Bytes) → mem t xs ≡ true → mem t (x ∷ xs) ≡ true
unfolding mem
later_mem t x xs h = ground arith

first_mem : (t x : Bytes) (xs : List Bytes) → x ≡ t → mem t (x ∷ xs) ≡ true
unfolding mem
first_mem t x xs e = ground (arith, equal_iff x t)

module _ (o : Outside) (m : Meta) (files : Dict Bytes) where
  -- A file of the directory is a valid signature for the thumbprint, which the snapshot lists.
  pub record HasSigned (names : List Bytes) (thumb : Bytes) : Type 0 where
    pub file : Bytes
    pub present : mem file names ≡ true
    pub named_for : signature_thumb file ≡ some thumb
    pub operator : Operator
    pub found : find_by_thumb o m.policy_operators thumb ≡ some operator
    pub valid : signature_valid o m files file ≡ true

  HasSigned-within :
      (names : List Bytes) {before : List Bytes} {thumb : Bytes} (s : HasSigned before thumb)
      → mem s.file names ≡ true
      → HasSigned names thumb
  HasSigned-within names s h = record {
    file = s.file;
    present = h;
    named_for = s.named_for;
    operator = s.operator;
    found = s.found;
    valid = s.valid;
  }

  -- What is counted stays counted.
  collect_keeps :
      (t : Bytes) (seen : List Bytes) (out : List Operator) (names : List Bytes)
      → mem t (thumbs_of o out) ≡ true
      → Counted o m files seen out
      → mem t (thumbs_of o (collect o m files seen out names)) ≡ true
  collect_keeps t seen out [] h c = unfold collect in h
  collect_keeps t seen out (name ∷ rest) h c = elim (Option-cases (signer_of o m files seen name)) [
    | inl skip ↦
        rw (collect_skip o m files seen out name rest skip) (collect_keeps t seen out rest h c)
    | inr ((thumb, op), counted) ↦
        let next = Counted-next o m files seen out name thumb op counted c in
        rw (collect_count o m files seen out name thumb op rest counted) (
          collect_keeps t (thumb ∷ seen) (out ++ (op ∷ [])) rest
            (sym (next.same t) ∙ later_mem t thumb seen (c.same t ∙ h)) next)
  ]

  counts_or_seen :
      (seen : List Bytes) (name thumb : Bytes) (op : Operator)
      → signature_thumb name ≡ some thumb
      → find_by_thumb o m.policy_operators thumb ≡ some op
      → signature_valid o m files name ≡ true
      → (mem thumb seen ≡ true) ⊎ (signer_of o m files seen name ≡ some (thumb, op))
  unfolding signer_of
  counts_or_seen seen name thumb op e f v = elim (Bool-cases (mem thumb seen)) [
    | inl old ↦ inl old
    | inr new ↦ inr (ground arith)
  ]

  -- A valid signature in the directory is counted.
  collect_counts :
      (seen : List Bytes) (out : List Operator) (names : List Bytes) (thumb : Bytes)
      → HasSigned names thumb
      → Counted o m files seen out
      → mem thumb (thumbs_of o (collect o m files seen out names)) ≡ true
  collect_counts seen out [] thumb s c = elim (no_mem s.file s.present) [ ]
  collect_counts seen out (name ∷ rest) thumb s c = elim (mem_cases s.file name rest s.present) [
    | inl here ↦
        elim (counts_or_seen seen name thumb s.operator (ap signature_thumb here ∙ s.named_for)
          s.found (ap (signature_valid o m files) here ∙ s.valid)) [
            | inl old ↦ collect_keeps thumb seen out (name ∷ rest) (sym (c.same thumb) ∙ old) c
            | inr counted ↦
                let next = Counted-next o m files seen out name thumb s.operator counted c in
                rw (collect_count o m files seen out name thumb s.operator rest counted) (
                  collect_keeps thumb (thumb ∷ seen) (out ++ (s.operator ∷ [])) rest
                    (sym (next.same thumb) ∙ first_mem thumb thumb seen refl) next)
          ]
    | inr later ↦
        let s' = HasSigned-within rest s later in
        elim (Option-cases (signer_of o m files seen name)) [
          | inl skip ↦
              rw (collect_skip o m files seen out name rest skip)
                (collect_counts seen out rest thumb s' c)
          | inr ((t, op), counted) ↦ rw (collect_count o m files seen out name t op rest counted) (
              collect_counts (t ∷ seen) (out ++ (op ∷ [])) rest thumb s'
                (Counted-next o m files seen out name t op counted c))
        ]
  ]

  All-counted :
      (thumbs : List Bytes)
      → All (HasSigned (keys files)) thumbs
      → Within thumbs (thumbs_of o (collect_valid_signatures o m files))
  unfolding collect_valid_signatures
  All-counted [] a = tt
  All-counted (t ∷ ts) a = (
    collect_counts [] [] (sort_strings (keys files)) t
        (HasSigned-within (sort_strings (keys files)) a.0
          (mem-sort_strings a.0.file (keys files) ∙ a.0.present))
        (Counted-nil o m files),
    All-counted ts a.1,
  )

  -- Distinct thumbprints with a valid signature in the directory are at most as many as Verify
  -- counts.
  pub length-le-collect :
      (thumbs : List Bytes)
      → IsUnique thumbs
      → All (HasSigned (keys files)) thumbs
      → length thumbs ≤ length (thumbs_of o (collect_valid_signatures o m files))
  length-le-collect thumbs u a = length-Within thumbs _ u (All-counted thumbs a)

pub length-thumbs_of : (o : Outside) (ops : List Operator) → length (thumbs_of o ops) ≡ length ops
unfolding thumbs_of
length-thumbs_of o [] = refl
length-thumbs_of o (op ∷ rest) = ap suc (length-thumbs_of o rest)
