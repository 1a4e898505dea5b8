-- ===== src/Quorum/Policy.antt =====
-- internal/quorum/policy.go: the policy file, its parser and its validation.
pub mod Valid
use thimble.Base.{
  ℕ, zero, suc, ◌+◌, Bool, true, false, Option, none, some, List, [], ◌∷◌, ◌++◌, ltb, ◌==◌,
  if◌then◌else◌, Bytes, codes, length, equal, has_prefix, mem, split_at, map,
}
use thimble.Base.Space.{trim_space}
use thimble.Base.Number.{ℤ, pos, negsuc, atoi}
use thimble.Errors.{
  Result, ok, err, ◌>>=◌, ◌>>◌, require, in_line, unknown_section, outside_section, unknown_key,
  not_integer, missing_quorum_m, no_operators, quorum_below_one, quorum_above_operators,
  operator_name_empty, operator_recipient_empty, duplicate_operator_name,
  duplicate_operator_recipient,
}
use thimble.Quorum.Toml.{set_last, strip_comment, split_assignment, unquote}

pub record Operator : Type 0 where
  pub name : Bytes
  pub recipient : Bytes

pub record Policy : Type 0 where
  pub m : ℤ
  pub operators : List Operator

-- `section`; in the section of operators, `current` is the last operator appended
pub data Section : Type 0 where
  top in_policy in_operators : Section

-- the variables of parsePolicy's loop
pub record Parser : Type 0 where
  pub policy : Policy
  pub section : Section
  pub seen_m : Bool

abbrev pub initial : Parser
initial = record { policy = record { m = pos 0; operators = [] }; section = top; seen_m = false }

abbrev pub blank_operator : Operator
blank_operator = record { name = []; recipient = [] }

unfoldable pub parse_policy_kv : Bytes → Bytes → Parser → Result Parser
parse_policy_kv key val p =
    if equal key (codes "quorum_m")
    then elim (atoi val) [
      | none ↦ err (not_integer val)
      | some n ↦ ok (record p { policy = record p.policy { m = n }; seen_m = true })
    ]
    else err (unknown_key key)

abbrev edit_current : Parser → (Operator → Operator) → Parser
edit_current p f = record p {
  policy = record p.policy { operators = set_last f p.policy.operators };
}

unfoldable pub parse_operator_kv : Bytes → Bytes → Parser → Result Parser
unfolding set_last
parse_operator_kv key val p = do
  unquoted ← unquote val
  if equal key (codes "name")
      then ok (edit_current p (λ op. record op { name = unquoted }))
      else if equal key (codes "recipient")
      then ok (edit_current p (λ op. record op { recipient = unquoted }))
      else err (unknown_key key)

-- the switch of parseKV
unfoldable pub parse_in : Section → Bytes → Bytes → Parser → Result Parser
unfolding parse_policy_kv parse_operator_kv
parse_in in_policy key val p = parse_policy_kv key val p
parse_in in_operators key val p = parse_operator_kv key val p
parse_in top key val p = err (outside_section key)

unfoldable pub parse_kv : Bytes → Parser → Result Parser
unfolding parse_in
parse_kv line p = do (key, val) ← split_assignment line; parse_in p.section key val p

-- the body of the loop, on a line without its comment and trimmed
unfoldable pub parse_line : Bytes → Parser → Result Parser
unfolding parse_kv
parse_line [] p = ok p
parse_line (c ∷ cs) p =
    let line = c ∷ cs in
    if equal line (codes "[[operators]]")
    then ok (record p {
      policy = record p.policy { operators = p.policy.operators ++ (blank_operator ∷ []) };
      section = in_operators;
    })
    else if equal line (codes "[policy]")
    then ok (record p { section = in_policy })
    else if has_prefix line (codes "[")
    then err (unknown_section line)
    else parse_kv line p

unfoldable pub parse_lines : ℕ → List Bytes → Parser → Result Parser
unfolding parse_line
parse_lines n [] p = ok p
parse_lines n (raw ∷ rest) p = do
  q ← in_line (n + 1) (parse_line (trim_space (strip_comment raw)) p)
  parse_lines (n + 1) rest q

unfoldable pub parse_policy : Bytes → Result Policy
unfolding parse_lines
parse_policy text = do
  p ← parse_lines 0 (split_at b'\n' text) initial
  if p.seen_m then ok p.policy else err missing_quorum_m

-- the loop of validatePolicy; `i` counts the operators, and the lists hold what was seen
unfoldable pub validate_operators : ℕ → List Bytes → List Bytes → List Operator → Result (Unit {0})
validate_operators i names recipients [] = ok tt
validate_operators i names recipients (op ∷ rest) =
    let later = validate_operators (i + 1) (op.name ∷ names) (op.recipient ∷ recipients) rest in
    if equal op.name []
    then err (operator_name_empty i)
    else if equal op.recipient []
    then err (operator_recipient_empty i)
    else if mem op.name names
    then err (duplicate_operator_name op.name)
    else if mem op.recipient recipients
    then err (duplicate_operator_recipient op.name)
    else later

-- p.M < 1 and p.M > len(p.Operators)
unfoldable pub validate_quorum : ℤ → ℕ → Result (Unit {0})
validate_quorum (negsuc n) count = err quorum_below_one
validate_quorum (pos m) count =
    if ltb m 1
    then err quorum_below_one
    else if ltb count m
    then err quorum_above_operators
    else ok tt

unfoldable pub validate_policy : Policy → Result (Unit {0})
unfolding validate_quorum validate_operators
validate_policy p =
    if length p.operators == 0
    then err no_operators
    else validate_quorum p.m (length p.operators) >> validate_operators 0 [] [] p.operators

-- LoadPolicy on the bytes of the file, if there is one; the flag `present` is `some`
unfoldable pub load_policy : Option Bytes → Result (Option Policy)
load_policy none = ok none
load_policy (some raw) = do policy ← parse_policy raw; validate_policy policy; ok (some policy)

unfoldable pub find_operator : Bytes → List Operator → Option Operator
find_operator r [] = none
find_operator r (op ∷ rest) = if equal op.recipient r then some op else find_operator r rest

unfoldable pub find_by_recipient : Policy → Bytes → Option Operator
unfolding find_operator
find_by_recipient p recipient = find_operator (trim_space recipient) p.operators

abbrev pub names : Policy → List Bytes
names p = map (λ op. op.name) p.operators
