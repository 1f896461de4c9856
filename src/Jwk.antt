-- ===== src/Jwk.antt =====
-- The package jwk: keys, and sets of keys.
pub mod KeySet
pub mod Values
pub mod Keys
