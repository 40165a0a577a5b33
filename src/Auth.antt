-- ===== src/Auth.antt =====
-- The sign-in: frontend/src/auth.
pub mod Domain
pub mod Permissions
pub mod Attempts
pub mod Password
pub mod Session
pub mod Login
pub mod Tests
