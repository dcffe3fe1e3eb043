-- ===== src/Auth.antt =====
-- auth/: the users of a domain, and the rate limiter.
pub mod Domain
pub mod Limiter
pub mod Crypto
mod Tests
