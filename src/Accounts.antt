-- ===== src/Accounts.antt =====
-- services/auth-service/: user accounts and refresh tokens, and the tokens that pkg/middleware issues.
pub mod Domain
pub mod Repository
pub mod Service
pub mod Http
pub mod Samples
