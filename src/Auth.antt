-- ===== src/Auth.antt =====
-- Who may do what: lib/auth.
pub mod Permissions
pub mod Mfa
pub mod Members
pub mod Mobile
pub mod Challenge
mod Tests
