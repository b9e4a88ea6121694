-- ===== src/Auth.antt =====
-- auth: the verification of bearer tokens.
pub mod KeySet
pub mod Verifier
mod Examples
