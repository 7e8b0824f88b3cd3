-- ===== src/Security.antt =====
-- src/services/security: what a peer may send, how often, and only once.
pub mod ReplayProtection
pub mod RateLimiting
