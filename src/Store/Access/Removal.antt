-- ===== src/Store/Access/Removal.antt =====
-- dropRecipient: who may read a namespace after a removal.
use thimble.Base.{
  ◌<◌, ◌≡◌, refl, sym, ap, ◌∙◌, inl, inr, Bool, true, false, not, ◌&&◌, List, [], ◌∷◌, Bytes, arith,
  length, mem, equal, equal_iff, equal_refl, ◌==◌, if◌then◌else◌, Bool-cases,
}
use thimble.Base.Sort.{mem-sort_strings}
use thimble.Errors.{Error, Result, ok, err}
use thimble.Store.Validate.{unique_from, mem-unique_from, sorted_unique}
use thimble.Store.Manifest.{EnvManifest}
use thimble.Store.Access.{without, drop_recipient}

mem-without :
    (cleaned r : Bytes) (xs : List Bytes)
    → mem r (without cleaned xs) ≡ (if equal r cleaned then false else mem r xs)
unfolding mem without
mem-without cleaned r [] = ground arith
mem-without cleaned r (x ∷ xs) =
    ground
      (arith, mem-without cleaned r xs, equal_iff r cleaned, equal_iff x cleaned, equal_iff x r)

length-without_ne :
    (cleaned : Bytes) (xs : List Bytes)
    → mem cleaned xs ≡ false
    → length (without cleaned xs) ≡ length xs
unfolding mem without
length-without_ne cleaned [] h = refl
length-without_ne cleaned (x ∷ xs) h = ground (arith, length-without_ne cleaned xs)

two_tests :
    (a b : Bool) (e f : Error) (v r : EnvManifest)
    → (if a then err e else if b then err f else ok v) ≡ ok r
    → (r.recipients ≡ v.recipients) × (a ≡ false) × (b ≡ false)
two_tests true b e f v r h = cc
two_tests false true e f v r h = cc
two_tests false false e f v r h = (sym (ap recipients_of h), refl, refl)
  where
    recipients_of : Result EnvManifest → List Bytes
    recipients_of (ok m) = m.recipients
    recipients_of (err e) = []

drop_recipient-cases :
    (cleaned : Bytes) (meta next : EnvManifest)
    → drop_recipient cleaned meta ≡ ok next
    → (next.recipients ≡ sorted_unique (without cleaned meta.recipients))
      × ((length (without cleaned meta.recipients) == length meta.recipients) ≡ false)
      × ((length (without cleaned meta.recipients) == 0) ≡ false)
unfolding drop_recipient
drop_recipient-cases cleaned meta next h = two_tests _ _ _ _ _ _ h

mem-sorted_unique :
    (r : Bytes) (xs : List Bytes) → mem r (sorted_unique xs) ≡ (mem r xs && not (equal r []))
unfolding sorted_unique mem
mem-sorted_unique r xs =
    mem-sort_strings r (unique_from [] xs) ∙ mem-unique_from r [] xs ∙ ground arith

some_member : (xs : List Bytes) → (length xs == 0) ≡ false → (x : Bytes) × (mem x xs ≡ true)
unfolding mem
some_member [] h = cc
some_member (x ∷ xs) h = (x, ground (arith, equal_refl x))

mem-length : (x : Bytes) (xs : List Bytes) → mem x xs ≡ true → 0 < length xs
unfolding mem
mem-length x [] h = cc
mem-length x (y ∷ ys) h = omega arith

not_nil : (x : Bytes) (ms : List Bytes) → mem x ms ≡ true → mem [] ms ≡ false → equal x [] ≡ false
not_nil x ms h none_empty = elim (Bool-cases (equal x [])) [
  | inl nil ↦ cc (ap (λ y. mem y ms) ((equal_iff x []).0 nil), h, none_empty)
  | inr solid ↦ solid
]

-- A removal that succeeds has removed a recipient of the namespace. Its recipients are then those
-- it had, without the removed one and without empty strings; and if none of them was empty, there
-- is at least one left.
pub drop_recipient-recipients :
    (cleaned : Bytes) (meta next : EnvManifest)
    → drop_recipient cleaned meta ≡ ok next
    → (mem cleaned meta.recipients ≡ true)
      × ((r : Bytes)
          → mem r next.recipients
            ≡ (mem r meta.recipients && (not (equal r cleaned) && not (equal r []))))
      × (mem [] meta.recipients ≡ false → 0 < length next.recipients)
drop_recipient-recipients cleaned meta next h = (
  elim (Bool-cases (mem cleaned meta.recipients)) [
    | inl present ↦ present
    | inr absent ↦ ground (arith, length-without_ne cleaned meta.recipients absent, parts.1)
  ],
  members,
  λ none_empty. one_left none_empty (some_member (without cleaned meta.recipients) parts.2),
)
  where
    parts :
        (next.recipients ≡ sorted_unique (without cleaned meta.recipients))
        × ((length (without cleaned meta.recipients) == length meta.recipients) ≡ false)
        × ((length (without cleaned meta.recipients) == 0) ≡ false)
    parts = drop_recipient-cases cleaned meta next h

    members :
        (r : Bytes)
        → mem r next.recipients
          ≡ (mem r meta.recipients && (not (equal r cleaned) && not (equal r [])))
    members r =
        ap (mem r) parts.0
        ∙ mem-sorted_unique r (without cleaned meta.recipients)
        ∙ ap (λ b. b && not (equal r [])) (mem-without cleaned r meta.recipients)
        ∙ ground arith

    one_left :
        mem [] meta.recipients ≡ false
        → (x : Bytes) × (mem x (without cleaned meta.recipients) ≡ true)
        → 0 < length next.recipients
    one_left none_empty (x, here) =
        let both : (if equal x cleaned then false else mem x meta.recipients) ≡ true =
          sym (mem-without cleaned x meta.recipients) ∙ here in
        let there : mem x meta.recipients ≡ true = ground arith in
        let solid : equal x [] ≡ false = not_nil x meta.recipients there none_empty in
        mem-length x next.recipients (members x ∙ ground arith)
