-- ===== src/Quorum/Policy/Valid.antt =====
-- validatePolicy decides whether a quorum can be reached, and who may count towards it.
use thimble.Base.{
  ℕ, ◌+◌, ◌≤◌, ◌≡◌, refl, ◌↔◌, false, some, List, [], ◌∷◌, ◌==◌, arith, Bytes, ||_right, length,
  equal, mem, map, IsUnique,
}
use thimble.Base.Unique.{Unseen, Unseen-cons, Unseen-weaken, Unseen-nil}
use thimble.Base.Number.{ℤ, pos, negsuc}
use thimble.Errors.{ok}
use thimble.Quorum.Policy.{
  Operator, Policy, validate_operators, validate_quorum, validate_policy, load_policy,
}

abbrev pub all_names : List Operator → List Bytes
all_names = map (λ op. op.name)

abbrev pub all_recipients : List Operator → List Bytes
all_recipients = map (λ op. op.recipient)

-- A threshold that the operators can meet and that at least one of them must, and operators
-- told apart both by their names and by their recipients, none of which is empty.
pub record IsQuorum (p : Policy) : Type 0 where
  pub threshold : ℕ
  pub m_is : p.m ≡ pos threshold
  pub at_least_one : 1 ≤ threshold
  pub reachable : threshold ≤ length p.operators
  pub names_unique : IsUnique (all_names p.operators)
  pub recipients_unique : IsUnique (all_recipients p.operators)
  pub names_given : mem [] (all_names p.operators) ≡ false
  pub recipients_given : mem [] (all_recipients p.operators) ≡ false

record Accepted (names recipients : List Bytes) (ops : List Operator) : Type 0 where
  names_unseen : Unseen names (all_names ops)
  recipients_unseen : Unseen recipients (all_recipients ops)
  names_unique : IsUnique (all_names ops)
  recipients_unique : IsUnique (all_recipients ops)
  names_given : mem [] (all_names ops) ≡ false
  recipients_given : mem [] (all_recipients ops) ≡ false

first_accepted :
    (i : ℕ) (names recipients : List Bytes) (op : Operator) (rest : List Operator)
    → validate_operators i names recipients (op ∷ rest) ≡ ok tt
    → (equal op.name [] ≡ false)
      × (equal op.recipient [] ≡ false)
      × (mem op.name names ≡ false)
      × (mem op.recipient recipients ≡ false)
      × (validate_operators (i + 1) (op.name ∷ names) (op.recipient ∷ recipients) rest ≡ ok tt)
unfolding validate_operators
first_accepted i names recipients op rest h = ground arith

validate_operators-Accepted :
    (i : ℕ) (names recipients : List Bytes) (ops : List Operator)
    → validate_operators i names recipients ops ≡ ok tt
    → Accepted names recipients ops
unfolding mem
validate_operators-Accepted i names recipients [] h = record {
  names_unseen = tt;
  recipients_unseen = tt;
  names_unique = tt;
  recipients_unique = tt;
  names_given = refl;
  recipients_given = refl;
}
validate_operators-Accepted i names recipients (op ∷ rest) h =
    let (name_given, recipient_given, name_new, recipient_new, later) =
      first_accepted i names recipients op rest h in
    let a =
      validate_operators-Accepted (i + 1) (op.name ∷ names) (op.recipient ∷ recipients) rest
        later in
    let (name_later, names_later) = Unseen-cons op.name names (all_names rest) a.names_unseen in
    let (recipient_later, recipients_later) =
      Unseen-cons op.recipient recipients (all_recipients rest) a.recipients_unseen in
    record {
      names_unseen = (name_new, names_later);
      recipients_unseen = (recipient_new, recipients_later);
      names_unique = (name_later, a.names_unique);
      recipients_unique = (recipient_later, a.recipients_unique);
      names_given = ground (arith, a.names_given);
      recipients_given = ground (arith, a.recipients_given);
    }

Accepted-validate_operators :
    (i : ℕ) (names recipients : List Bytes) (ops : List Operator)
    → Accepted names recipients ops
    → validate_operators i names recipients ops ≡ ok tt
unfolding validate_operators mem
Accepted-validate_operators i names recipients [] a = refl
Accepted-validate_operators i names recipients (op ∷ rest) a = ground (
  arith,
  a.names_given,
  a.recipients_given,
  a.names_unseen,
  a.recipients_unseen,
  Accepted-validate_operators (i + 1) (op.name ∷ names) (op.recipient ∷ recipients) rest (record {
    names_unseen = Unseen-weaken op.name names (all_names rest) a.names_unique.0 a.names_unseen.1;
    recipients_unseen =
        Unseen-weaken op.recipient recipients (all_recipients rest) a.recipients_unique.0
          a.recipients_unseen.1;
    names_unique = a.names_unique.1;
    recipients_unique = a.recipients_unique.1;
    names_given = ||_right (equal op.name []) (mem [] (all_names rest)) a.names_given;
    recipients_given =
        ||_right (equal op.recipient []) (mem [] (all_recipients rest)) a.recipients_given;
  }),
)

accepted : (p : Policy) → IsQuorum p → validate_operators 0 [] [] p.operators ≡ ok tt
accepted p q = Accepted-validate_operators 0 [] [] p.operators (record {
  names_unseen = Unseen-nil (all_names p.operators);
  recipients_unseen = Unseen-nil (all_recipients p.operators);
  names_unique = q.names_unique;
  recipients_unique = q.recipients_unique;
  names_given = q.names_given;
  recipients_given = q.recipients_given;
})

empty_not : (p : Policy) → IsQuorum p → (length p.operators == 0) ≡ false
empty_not p q = ground (arith, q.at_least_one, q.reachable)

threshold_of_m :
    (m : ℤ) (ops : List Operator)
    → validate_quorum m (length ops) ≡ ok tt
    → (n : ℕ) × (m ≡ pos n) × (1 ≤ n) × (n ≤ length ops)
unfolding validate_quorum
threshold_of_m (negsuc n) ops h = cc
threshold_of_m (pos n) ops h = (n, refl, ground arith, ground arith)

validated_parts :
    (p : Policy)
    → validate_policy p ≡ ok tt
    → (validate_quorum p.m (length p.operators) ≡ ok tt)
      × (validate_operators 0 [] [] p.operators ≡ ok tt)
unfolding validate_policy
validated_parts p h = ground arith

load_policy-validated :
    (raw : Bytes) (p : Policy) → load_policy (some raw) ≡ ok (some p) → validate_policy p ≡ ok tt
unfolding load_policy
load_policy-validated raw p h = ground arith

IsQuorum-validate_policy : (p : Policy) → IsQuorum p → validate_policy p ≡ ok tt
unfolding validate_policy validate_quorum
IsQuorum-validate_policy p q =
    rw (empty_not p q)
      (rw (q.m_is, validate_quorum) (ground (arith, q.at_least_one, q.reachable, accepted p q)))

validate_policy-IsQuorum : (p : Policy) → validate_policy p ≡ ok tt → IsQuorum p
validate_policy-IsQuorum p h =
    let (quorum, later) = validated_parts p h in
    let (m, e, low, high) = threshold_of_m p.m p.operators quorum in
    let a = validate_operators-Accepted 0 [] [] p.operators later in
    record {
      threshold = m;
      m_is = e;
      at_least_one = low;
      reachable = high;
      names_unique = a.names_unique;
      recipients_unique = a.recipients_unique;
      names_given = a.names_given;
      recipients_given = a.recipients_given;
    }

-- The validation accepts a policy exactly when its threshold is at least 1 and at most the number
-- of operators, no operator's name or recipient is empty, and no two are the same.
pub validate_policy_iff : (p : Policy) → (validate_policy p ≡ ok tt) ↔ IsQuorum p
validate_policy_iff p = (validate_policy-IsQuorum p, IsQuorum-validate_policy p)

-- A policy that LoadPolicy returns can be met, and tells its operators apart: it is as IsQuorum
-- says.
pub load_policy-IsQuorum :
    (raw : Bytes) (p : Policy) → load_policy (some raw) ≡ ok (some p) → IsQuorum p
load_policy-IsQuorum raw p h = validate_policy-IsQuorum p (load_policy-validated raw p h)
