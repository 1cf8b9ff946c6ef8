-- ===== src/Gateway.antt =====
-- services/api-gateway/: the rate limiter and the token check that stand before the other services.
pub mod Limiter
pub mod Auth
