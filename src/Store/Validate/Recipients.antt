-- ===== src/Store/Validate/Recipients.antt =====
-- What CleanRecipient lets through to the command line of age and into the manifest.
use thimble.Base.{
  ℕ, ◌≡◌, refl, ap, ◌∙◌, inl, inr, Bool, true, false, not, ◌&&◌, ◌||◌, List, [], ◌∷◌, ◌==◌, arith,
  if◌then◌else◌, Bytes, codes, Bool-cases, has_prefix, contains, equal, equal_refl, mem, IsUnique,
  reverse, drop, &&_left,
}
use mathlib.Core.List.{reverse-reverse}
use thimble.Base.Space.{trim_line_end, drop_while, is_line_end}
use thimble.Base.Sort.{sorted, sorted-sort_strings, mem-sort_strings, IsUnique-sort_strings}
use thimble.Errors.{ok, Ensures}
use thimble.Store.Validate.{
  is_age_recipient, is_ssh_recipient, validate_ssh_payload, check_recipient, clean_recipient,
  sorted_unique, unique_from, mem-unique_from, unique_from-IsUnique,
}

drop_while-drop_while :
    (s : Bytes) → drop_while is_line_end (drop_while is_line_end s) ≡ drop_while is_line_end s
unfolding drop_while
drop_while-drop_while [] = refl
drop_while-drop_while (c ∷ cs) = ground (arith, drop_while-drop_while cs)

trim_line_end_idem : (s : Bytes) → trim_line_end (trim_line_end s) ≡ trim_line_end s
unfolding trim_line_end
trim_line_end_idem s =
    ap (λ t. reverse (drop_while is_line_end t))
      (reverse-reverse (drop_while is_line_end (reverse s)))
    ∙ ap reverse (drop_while-drop_while (reverse s))

check_recipient-eq-ok : (s r : Bytes) → check_recipient s ≡ ok r → r ≡ s
unfolding check_recipient
check_recipient-eq-ok [] r h = cc
check_recipient-eq-ok (c ∷ cs) r h = ground arith

-- The canonical form of a recipient is its own canonical form.
pub clean_recipient_idem :
    (recipient cleaned : Bytes)
    → clean_recipient recipient ≡ ok cleaned
    → clean_recipient cleaned ≡ ok cleaned
unfolding clean_recipient
clean_recipient_idem recipient cleaned h =
    let e = check_recipient-eq-ok (trim_line_end recipient) cleaned h in
    ap (λ s. check_recipient (trim_line_end s)) e
    ∙ ap check_recipient (trim_line_end_idem recipient)
    ∙ h

abbrev pub is_control : ℕ → Bool
is_control b = b == b'\r' || b == b'\n' || b == b'\t'

abbrev pub is_known : Bytes → Bool
is_known r =
    has_prefix r (codes "age1")
    || has_prefix r (codes "ssh-ed25519 ")
    || has_prefix r (codes "ssh-rsa ")

-- A recipient that Thimble stores: of one of the three kinds, and on one line.
pub record IsRecipient (r : Bytes) : Type 0 where
  pub kind : is_known r ≡ true
  pub one_line : contains is_control r ≡ false

or_left : (a b c : Bool) → a ≡ true → (a || b || c) ≡ true
or_left a b c h = ground arith

age_kind : (s : Bytes) → is_age_recipient s ≡ true → is_known s ≡ true
unfolding is_age_recipient
age_kind s h =
    or_left (has_prefix s (codes "age1")) (has_prefix s (codes "ssh-ed25519 "))
      (has_prefix s (codes "ssh-rsa ")) (&&_left _ _ h)

or_right : (a b c : Bool) → (b || c) ≡ true → (a || b || c) ≡ true
or_right a b c h = ground arith

if_or : (b c d e : Bool) → (if b then d else c && e) ≡ true → (b || c) ≡ true
if_or b c d e h = ground arith

ssh_kind : (s : Bytes) → is_ssh_recipient s ≡ true → is_known s ≡ true
unfolding is_ssh_recipient
ssh_kind s h =
    or_right (has_prefix s (codes "age1")) (has_prefix s (codes "ssh-ed25519 "))
      (has_prefix s (codes "ssh-rsa "))
      (if_or _ _ (validate_ssh_payload (drop 12 s)) (validate_ssh_payload (drop 8 s)) h)

check_recipient-IsRecipient : (s : Bytes) → Ensures IsRecipient (check_recipient s)
unfolding check_recipient
check_recipient-IsRecipient [] = tt
check_recipient-IsRecipient (c ∷ cs) = elim (Bool-cases (contains is_control (c ∷ cs))) [
  | inl control ↦ rw control tt
  | inr line ↦ rw line (elim (Bool-cases (is_age_recipient (c ∷ cs))) [
    | inl age ↦ rw age (record { kind = age_kind (c ∷ cs) age; one_line = line })
    | inr other ↦ rw other (elim (Bool-cases (is_ssh_recipient (c ∷ cs))) [
      | inl ssh ↦ rw ssh (record { kind = ssh_kind (c ∷ cs) ssh; one_line = line })
      | inr unknown ↦ rw unknown tt
    ])
  ])
]

-- What CleanRecipient returns begins with "age1", "ssh-ed25519 " or "ssh-rsa ", and holds no tab
-- and no line end.
pub clean_recipient-IsRecipient :
    (recipient cleaned : Bytes) → clean_recipient recipient ≡ ok cleaned → IsRecipient cleaned
unfolding clean_recipient
clean_recipient-IsRecipient recipient cleaned h =
    rw h at (check_recipient-IsRecipient (trim_line_end recipient))

kept :
    (j : Bytes) (values : List Bytes)
    → mem j (unique_from [] values) ≡ (mem j values && not (equal j []))
unfolding mem
kept j values = ground (arith, mem-unique_from j [] values)

no_empty : (values : List Bytes) → mem [] (unique_from [] values) ≡ false
no_empty values = ground (arith, kept [] values, equal_refl [])

-- A list of recipients as the manifest keeps it: in order, none twice, none empty.
pub record IsCanonical (rs : List Bytes) : Type 0 where
  pub in_order : sorted rs ≡ true
  pub unique : IsUnique rs
  pub none_empty : mem [] rs ≡ false

-- sortedUnique returns its arguments in order, each once and the empty string never, and no other
-- string.
pub sorted_unique-IsCanonical :
    (values : List Bytes)
    → IsCanonical (sorted_unique values)
      × ((j : Bytes) → mem j (sorted_unique values) ≡ (mem j values && not (equal j [])))
unfolding sorted_unique
sorted_unique-IsCanonical values = (
  record {
    in_order = sorted-sort_strings (unique_from [] values);
    unique = IsUnique-sort_strings (unique_from [] values) (unique_from-IsUnique [] values);
    none_empty = mem-sort_strings [] (unique_from [] values) ∙ no_empty values;
  },
  λ j. mem-sort_strings j (unique_from [] values) ∙ kept j values,
)
