-- ===== src/Organization.antt =====
-- packages/api/src/modules/organization: the members of organizations, their roles, the invitations
-- and the guard of the routes.
pub mod Types
pub mod Members
pub mod Invitations
pub mod Guard
mod Tests
