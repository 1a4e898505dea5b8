-- ===== src/Dotenv/Keys.antt =====
-- Every key that Parse returns is a name that ValidateKey accepts.
use thimble.Base.{
  ℕ, ◌+◌, ◌≡◌, inl, inr, true, Option, none, some, List, [], ◌∷◌, arith, leb, ◌==◌, Bytes,
  Bool-cases, equal_iff, cut_at, length,
}
use thimble.Base.Space.{trim_space}
use thimble.Base.Dict.{get, put, get-put}
use thimble.Errors.{Result, ok, err, ◌>>=◌, Ensures, Ensures-bind, in_line}
use thimble.Dotenv.{
  Values, max_value_bytes, matches_key, validate_key, parse_value, assign_parts, parse_assignment,
  parse_line, parse_lines, parse, scan_lines, drop_cr,
}

-- Every key of the map matches KeyPattern.
pub record HasNames (values : Values) : Type 0 where
  pub at_key : (k v : Bytes) → get values k ≡ some v → matches_key k ≡ true

put-HasNames :
    (values : Values) (key value : Bytes)
    → matches_key key ≡ true
    → HasNames values
    → HasNames (put values key value)
put-HasNames values key value h names = record {
  at_key = λ k v e. ground (arith, get-put values key k value, equal_iff key k, names.at_key k v);
}

put_value-HasNames :
    (values : Values) (key : Bytes) (value : Result Bytes)
    → matches_key key ≡ true
    → HasNames values
    → Ensures HasNames (value >>= λ v. ok (put values key v))
put_value-HasNames values key (ok v) h names = put-HasNames values key v h names
put_value-HasNames values key (err e) h names = tt

assign_parts-HasNames :
    (n : ℕ) (parts : Option (Bytes × Bytes)) (values : Values)
    → HasNames values
    → Ensures HasNames (assign_parts n parts values)
unfolding assign_parts validate_key
assign_parts-HasNames n none values names = tt
assign_parts-HasNames n (some (left, right)) values names =
    elim (Bool-cases (matches_key (trim_space left))) [
      | inl good ↦ rw good (
          put_value-HasNames values (trim_space left) (in_line n (parse_value (trim_space right)))
            good names)
      | inr bad ↦ rw bad tt
    ]

parse_line-HasNames :
    (n : ℕ) (line : Bytes) (values : Values)
    → HasNames values
    → Ensures HasNames (parse_line n line values)
unfolding parse_line parse_assignment
parse_line-HasNames n [] values names = names
parse_line-HasNames n (c ∷ cs) values names = elim (Bool-cases (c == b'#')) [
  | inl comment ↦ rw comment names
  | inr other ↦ rw other (assign_parts-HasNames n (cut_at b'=' (c ∷ cs)) values names)
]

parse_lines-HasNames :
    (n : ℕ) (lines : List Bytes) (values : Values)
    → HasNames values
    → Ensures HasNames (parse_lines n lines values)
unfolding parse_lines
parse_lines-HasNames n [] values names = names
parse_lines-HasNames n (raw ∷ rest) values names =
    elim (Bool-cases (leb max_value_bytes (length raw))) [
      | inl full ↦ rw full tt
      | inr fits ↦ rw fits (
          Ensures-bind HasNames HasNames (parse_line (n + 1) (trim_space (drop_cr raw)) values) _
            (parse_line-HasNames (n + 1) (trim_space (drop_cr raw)) values names)
            (λ next named. parse_lines-HasNames (n + 1) rest next named))
    ]

-- In a map that Parse returns, every key matches KeyPattern.
pub parse-HasNames : (input : Bytes) (values : Values) → parse input ≡ ok values → HasNames values
unfolding parse get
parse-HasNames input values e =
    rw e at (parse_lines-HasNames 0 (scan_lines input) [] (record { at_key = λ k v absent. cc }))
