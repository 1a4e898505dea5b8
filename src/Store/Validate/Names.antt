-- ===== src/Store/Validate/Names.antt =====
-- ValidateName accepts safe segments of a path only.
use thimble.Base.{
  ℕ, ◌≡◌, refl, Bool, true, false, ◌||◌, [], ◌∷◌, ◌==◌, arith, Bytes, all_of, all_of_imp, differs,
}
use thimble.Errors.{ok}
use thimble.Store.Validate.{name_rest, matches_name, contains_dots, validate_name}

-- The byte that a name begins with is not one of these.
abbrev pub starts_with_mark : Bytes → Bool
starts_with_mark [] = true
starts_with_mark (c ∷ cs) = c == b'.' || c == b'-'

-- A name that stands for one entry of its directory, and that no program reads as a flag.
pub record IsSegment (name : Bytes) : Type 0 where
  pub no_slash : all_of (differs b'/') name ≡ true
  pub no_nul : all_of (differs 0) name ≡ true
  pub no_dots : contains_dots name ≡ false
  pub no_mark : starts_with_mark name ≡ false

name_rest_no_slash : (c : ℕ) → name_rest c ≡ true → differs b'/' c ≡ true
unfolding name_rest
name_rest_no_slash c h = ground arith

name_rest_no_nul : (c : ℕ) → name_rest c ≡ true → differs 0 c ≡ true
unfolding name_rest
name_rest_no_nul c h = ground arith

pub matches_name_rest : (name : Bytes) → matches_name name ≡ true → all_of name_rest name ≡ true
unfolding matches_name all_of name_rest
matches_name_rest [] h = refl
matches_name_rest (c ∷ cs) h = ground arith

matches_name_mark : (name : Bytes) → matches_name name ≡ true → starts_with_mark name ≡ false
unfolding matches_name
matches_name_mark [] h = cc
matches_name_mark (c ∷ cs) h = ground arith

pub validate_name-tests :
    (kind name : Bytes)
    → validate_name kind name ≡ ok tt
    → (matches_name name ≡ true) × (contains_dots name ≡ false)
unfolding validate_name
validate_name-tests kind name h = ground arith

-- A name that ValidateName accepts is not empty, holds no slash, no NUL and no "..", and begins
-- with neither a dot nor a dash.
pub validate_name-IsSegment : (kind name : Bytes) → validate_name kind name ≡ ok tt → IsSegment name
validate_name-IsSegment kind name h =
    let (matched, undotted) = validate_name-tests kind name h in
    let rest = matches_name_rest name matched in
    record {
      no_slash = all_of_imp name_rest (differs b'/') name_rest_no_slash name rest;
      no_nul = all_of_imp name_rest (differs 0) name_rest_no_nul name rest;
      no_dots = undotted;
      no_mark = matches_name_mark name matched;
    }
