-- ===== src/Security.antt =====
-- The shared security helpers of lib/security.
pub mod RateLimit
pub mod Base32
pub mod Totp
mod Tests
