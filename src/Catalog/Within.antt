-- ===== src/Catalog/Within.antt =====
-- Where the stores of the catalog can lie.
use thimble.Base.{
  ℕ, ◌≡◌, refl, sym, ap, ◌∙◌, true, false, not, ◌||◌, List, [], ◌∷◌, ◌++◌, ◌==◌, arith, Bytes,
  codes, All, Bool-cases, inl, inr, all_of, differs, equal, split_at, push_byte,
}
use thimble.Errors.{ok, ◌>>◌, bind-eq-ok, guard-eq-ok, ok_inverse, invalid_store_name}
use thimble.Store.Validate.{validate_name, matches_name, contains_dots}
use thimble.Store.Validate.Names.{validate_name-tests}
use thimble.Catalog.Paths.{dot, dots, is_absolute, segments, clean, join, rooted}
use thimble.Catalog.Paths.Segments.{IsPlain, clean-plain, join-plain, segments-given}
use thimble.Catalog.{
  Selection, is_special, check_raw, check_segments, clean_managed_name, ensure_within_root,
  resolve_name,
}

abbrev NoSlash : Bytes → Type 0
NoSlash s = all_of (differs b'/') s ≡ true

push_byte-NoSlash :
    (c : ℕ) (ls : List Bytes) → (c == b'/') ≡ false → All NoSlash ls → All NoSlash (push_byte c ls)
unfolding push_byte all_of
push_byte-NoSlash c [] h a = (ground arith, tt)
push_byte-NoSlash c (l ∷ ls) h a = (ground (arith, a.0), a.1)

segments-NoSlash : (path : Bytes) → All NoSlash (segments path)
unfolding segments split_at all_of
segments-NoSlash [] = (refl, tt)
segments-NoSlash (c ∷ path) = elim (Bool-cases (c == b'/')) [
  | inl slash ↦ rw slash (refl, segments-NoSlash path)
  | inr other ↦ rw other (push_byte-NoSlash c (split_at b'/' path) other (segments-NoSlash path))
]

special-IsPlain : (s : Bytes) → not (is_special s) ≡ true → NoSlash s → IsPlain s
unfolding is_special
special-IsPlain s h a = record {
  not_empty = ground (arith, h);
  not_dot = ground (arith, h);
  not_dots = ground (arith, h);
  no_slash = a;
}

check_raw-All :
    (value : Bytes) (ss : List Bytes) → check_raw value ss ≡ ok tt → All NoSlash ss → All IsPlain ss
unfolding check_raw
check_raw-All value [] h a = tt
check_raw-All value (s ∷ ss) h a =
    let (plain, later) = guard-eq-ok (not (is_special s)) (invalid_store_name value) _ h in
    (special-IsPlain s plain a.0, check_raw-All value ss later a.1)

-- A segment that ValidateName accepts: it matches the pattern of names and has no two dots in a row.
abbrev pub IsName : Bytes → Type 0
IsName s = (matches_name s ≡ true) × (contains_dots s ≡ false)

check_segments-All :
    (value : Bytes) (ss : List Bytes) → check_segments value ss ≡ ok tt → All IsName ss
unfolding check_segments
check_segments-All value [] h = tt
check_segments-All value (s ∷ ss) h =
    let (_, rest) = guard-eq-ok (not (is_special s)) (invalid_store_name value) _ h in
    let (_, named, later) =
      bind-eq-ok (validate_name (codes "store name") s) (λ _. check_segments value ss) rest in
    (validate_name-tests (codes "store name") s named, check_segments-All value ss later)

-- A name that cleanManagedName accepts, and what it returns.
pub record Managed (value name : Bytes) : Type 0 where
  pub same : name ≡ value
  pub plain : All IsPlain (segments value)
  pub valid : All IsName (segments value)

pub clean_managed_name-Managed :
    (value name : Bytes) → clean_managed_name value ≡ ok name → Managed value name
unfolding clean_managed_name
clean_managed_name-Managed value name h =
    let (_, raw, rest) = bind-eq-ok (check_raw value (segments value)) _ h in
    let plain = check_raw-All value (segments value) raw (segments-NoSlash value) in
    let stays = clean-plain value plain in
    let (_, later) =
      guard-eq-ok
        (not (equal (clean value) dot || equal (clean value) dots || is_absolute (clean value)))
        (invalid_store_name value)
        (check_segments value (segments (clean value)) >> ok (clean value)) rest in
    let (_, named, last) =
      bind-eq-ok (check_segments value (segments (clean value))) (λ _. ok (clean value)) later in
    record {
      same = sym (ok_inverse last) ∙ stays;
      plain = plain;
      valid = check_segments-All value (segments value) (rw stays at named);
    }

-- A store that lies below the root: its path is the root's, and then the segments of its name.
pub record Below (root : List Bytes) (value : Bytes) (s : Selection) : Type 0 where
  pub name : s.name ≡ value
  pub path : s.path ≡ rooted (root ++ segments value)
  pub plain : All IsPlain (segments value)
  pub valid : All IsName (segments value)

-- A name that is resolved below an absolute root of plain segments stands for the path whose
-- segments are the root's and then the name's, and each of the name's matches the pattern of names
-- and has no two dots in a row.
pub resolve_name-Below :
    (r : Bytes) (rs : List Bytes) (source value : Bytes) (s : Selection)
    → All IsPlain (r ∷ rs)
    → resolve_name (rooted (r ∷ rs)) source value ≡ ok s
    → Below (r ∷ rs) value s
unfolding resolve_name
resolve_name-Below r rs source value s ps h =
    let (name, cleaned, rest) = bind-eq-ok (clean_managed_name value) _ h in
    let m = clean_managed_name-Managed value name cleaned in
    let (_, _, last) =
      bind-eq-ok (ensure_within_root (rooted (r ∷ rs)) (join (rooted (r ∷ rs)) name)) _ rest in
    rw (sym (ok_inverse last)) (record {
      name = m.same;
      path =
          ap (join (rooted (r ∷ rs))) m.same
          ∙ join-plain r rs value ps m.plain (segments-given value m.plain);
      plain = m.plain;
      valid = m.valid;
    })
