-- ===== src/Auth/Tests.antt =====
-- The code of lib/auth at concrete inputs.
mod Roles
mod Factors
mod Mobile
mod Challenges
