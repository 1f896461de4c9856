-- ===== src/Jwe.antt =====
-- The package `jwe`: headers, `Decrypt`, encryption of the content and of its key, and key derivation.
pub mod AesCbc
pub mod Decrypter
pub mod Headers
pub mod Content
pub mod Decrypt
pub mod KeyEncryption
pub mod Recipients
pub mod Samples
pub mod KeyWrap
pub mod ConcatKdf
