-- ===== src/Quorum.antt =====
-- internal/quorum: the M-of-N gate over recipient additions.
pub mod Toml
pub mod Policy
pub mod Meta
pub mod Message
pub mod Protocol
pub mod Verify
