-- ===== src/AuthService.antt =====
-- apps/auth-service: users, their sessions and password resets.
pub mod Passwords
pub mod Sessions
pub mod PasswordResets
pub mod Accounts
pub mod Auth
pub mod Roles
