-- ===== src/Jwt.antt =====
-- The package `jwt`: the claims of tokens, and their parsing and validation.
pub mod Times
pub mod Token
pub mod Birthdate
pub mod Openid
pub mod Parse
pub mod Validate
pub mod Whole
