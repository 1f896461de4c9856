-- ===== src/Jws/Sign/RoundTrip.antt =====
-- `Sign` of jws/jws.go with one key, and `Verify` of what it returns.
pub mod Text
pub mod Verified
