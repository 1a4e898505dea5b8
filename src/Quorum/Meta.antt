-- ===== src/Quorum/Meta.antt =====
-- internal/quorum/meta.go: the record that PrepareAdd leaves for the signers and for Verify.
use thimble.Base.{ℕ, List, Bytes}
use thimble.Base.Number.{ℤ}
use thimble.Quorum.Policy.{Operator}

pub record Meta : Type 0 where
  pub version : ℕ
  pub app : Bytes
  pub env : Bytes
  pub new_recipient : Bytes
  pub bundle_sha : Bytes
  pub nonce : Bytes
  pub verifier_recipient : Bytes
  pub policy_operators : List Operator
  pub quorum_m : ℤ
