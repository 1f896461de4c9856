-- ===== src/Jws.antt =====
-- The package `jws`: headers, key providers, messages, and how they are signed, parsed and verified.
pub mod Headers
pub mod KeySets
pub mod Message
pub mod Reader
pub mod Sign
pub mod Signers
pub mod Verify
