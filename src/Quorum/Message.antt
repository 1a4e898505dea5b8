-- ===== src/Quorum/Message.antt =====
-- internal/quorum/canonical.go: the text that the operators sign.
use thimble.Base.{
  ◌≡◌, refl, sym, ap, ◌∙◌, ℕ, ◌&&◌, Bool, true, Option, none, some, List, [], ◌∷◌, ◌++◌, arith,
  if◌then◌else◌, Bytes, codes, all_of, all_of-append, differs, cut_at, cut_at-append, equal,
  append_assoc, reverse,
}
use mathlib.Core.List.{reverse-append, reverse-cons, reverse-reverse}
use thimble.Base.Space.{trim_line_end}
use thimble.Errors.{Result, ok, err, message_mismatch}

-- strings.Join(texts, ":")
unfoldable pub join_colon : List Bytes → Bytes
join_colon [] = []
join_colon (t ∷ []) = t
join_colon (t ∷ u ∷ rest) = t ++ (b':' ∷ join_colon (u ∷ rest))

abbrev pub canonical_prefix : Bytes
canonical_prefix = codes "thimble-recipient-add"

unfoldable pub canonical_message : Bytes → Bytes → Bytes → Bytes → Bytes → Bytes
unfolding join_colon
canonical_message app env new_recipient bundle_sha nonce_hex =
    join_colon (canonical_prefix ∷ app ∷ env ∷ new_recipient ∷ bundle_sha ∷ nonce_hex ∷ [])

unfoldable pub check_canonical : Bytes → Bytes → Bytes → Bytes → Bytes → Bytes → Result (Unit {0})
check_canonical got app env new_recipient bundle_sha nonce_hex =
    if equal (trim_line_end got) (canonical_message app env new_recipient bundle_sha nonce_hex)
    then ok tt
    else err message_mismatch

abbrev pub NoColon : Bytes → Type 0
NoColon s = all_of (differs b':') s ≡ true

abbrev left_of : Option (Bytes × Bytes) → Bytes
left_of none = []
left_of (some (l, r)) = l

abbrev right_of : Option (Bytes × Bytes) → Bytes
right_of none = []
right_of (some (l, r)) = r

-- A text is cut at its first colon in one way.
cut_unique :
    (l r l' r' : Bytes)
    → NoColon l
    → NoColon l'
    → l ++ (b':' ∷ r) ≡ l' ++ (b':' ∷ r')
    → (l ≡ l') × (r ≡ r')
cut_unique l r l' r' h h' e =
    let cuts = sym (cut_at-append b':' l r h) ∙ ap (cut_at b':') e ∙ cut_at-append b':' l' r' h' in
    (ap left_of cuts, ap right_of cuts)

NoColon-tail : (c : ℕ) (cs : Bytes) → NoColon (c ∷ cs) → NoColon cs
unfolding all_of
NoColon-tail c cs h = ground arith

NoColon-one : (c : ℕ) (cs : Bytes) → NoColon (c ∷ cs) → NoColon (c ∷ [])
unfolding all_of
NoColon-one c cs h = ground arith

both : (a b : Bool) → a ≡ true → b ≡ true → (a && b) ≡ true
both a b p q = ground arith

all_of-reverse : (s : Bytes) → NoColon s → NoColon (reverse s)
all_of-reverse [] h = unfold all_of in refl
all_of-reverse (c ∷ cs) h = rw (reverse-cons c cs) (
    rw (all_of-append (differs b':') (reverse cs) (c ∷ []))
      (both _ _ (all_of-reverse cs (NoColon-tail c cs h)) (NoColon-one c cs h)))

-- A text is cut at its last colon in one way.
cut_last_unique :
    (l r l' r' : Bytes)
    → NoColon r
    → NoColon r'
    → l ++ (b':' ∷ r) ≡ l' ++ (b':' ∷ r')
    → (l ≡ l') × (r ≡ r')
cut_last_unique l r l' r' h h' e =
    let (back_r, back_l) =
      cut_unique (reverse r) (reverse l) (reverse r') (reverse l') (all_of-reverse r h)
        (all_of-reverse r' h') (sym (backwards l r) ∙ ap reverse e ∙ backwards l' r') in
    (
      sym (reverse-reverse l) ∙ ap reverse back_l ∙ reverse-reverse l',
      sym (reverse-reverse r) ∙ ap reverse back_r ∙ reverse-reverse r',
    )
  where
    backwards : (l r : Bytes) → reverse (l ++ (b':' ∷ r)) ≡ reverse r ++ (b':' ∷ reverse l)
    backwards l r =
        reverse-append l (b':' ∷ r)
        ∙ ap (λ t. t ++ reverse l) (reverse-cons b':' r)
        ∙ append_assoc (reverse r) (b':' ∷ []) (reverse l)

-- The fields of a canonical message, the recipient aside, hold no colon: the names by
-- ValidateName, the hash and the nonce as hexadecimal text.
pub record HasPlainFields (app env bundle_sha nonce : Bytes) : Type 0 where
  pub plain_app : NoColon app
  pub plain_env : NoColon env
  pub plain_sha : NoColon bundle_sha
  pub plain_nonce : NoColon nonce

-- If no field but the recipients holds a colon, two additions with the same canonical message are
-- for the same namespace, recipient, bundle and nonce.
pub canonical_message_injective :
    (app env recipient sha nonce app' env' recipient' sha' nonce' : Bytes)
    → HasPlainFields app env sha nonce
    → HasPlainFields app' env' sha' nonce'
    → canonical_message app env recipient sha nonce
      ≡ canonical_message app' env' recipient' sha' nonce'
    → (app ≡ app') × (env ≡ env') × (recipient ≡ recipient') × (sha ≡ sha') × (nonce ≡ nonce')
unfolding canonical_message
canonical_message_injective app env recipient sha nonce app' env' recipient' sha' nonce' p p' e =
    let (_, e1) = cut_unique canonical_prefix _ canonical_prefix _ prefix_plain prefix_plain e in
    let (same_app, e2) = cut_unique app _ app' _ p.plain_app p'.plain_app e1 in
    let (same_env, e3) = cut_unique env _ env' _ p.plain_env p'.plain_env e2 in
    let (e4, same_nonce) =
      cut_last_unique (recipient ++ (b':' ∷ sha)) nonce (recipient' ++ (b':' ∷ sha')) nonce'
        p.plain_nonce p'.plain_nonce
        (append_assoc recipient (b':' ∷ sha) (b':' ∷ nonce)
          ∙ e3
          ∙ sym (append_assoc recipient' (b':' ∷ sha') (b':' ∷ nonce'))) in
    let (same_recipient, same_sha) =
      cut_last_unique recipient sha recipient' sha' p.plain_sha p'.plain_sha e4 in
    (same_app, same_env, same_recipient, same_sha, same_nonce)
  where
    prefix_plain : NoColon canonical_prefix
    prefix_plain = unfold all_of in refl
