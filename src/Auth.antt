-- ===== src/Auth.antt =====
-- packages/api/src/modules/auth: one-time passwords, the users and the authentication service.
pub mod Redis
pub mod Otp
pub mod Users
pub mod Service
mod Tests
