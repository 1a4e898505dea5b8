-- ===== src/Store.antt =====
-- internal/store: namespaces of secrets, each a bundle that age encrypts to its recipients.
pub mod Validate
pub mod Manifest
pub mod Bundle
pub mod Commit
pub mod Edit
pub mod Secrets
pub mod Access
pub mod Rotate
pub mod Gate
