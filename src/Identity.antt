-- ===== src/Identity.antt =====
-- The package identity: logging in with the credentials of an account (identity/credentials.go).
pub mod Pick
pub mod Session
pub mod Poll
pub mod Provider
pub mod OverHttp
pub mod Tests
