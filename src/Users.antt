-- ===== src/Users.antt =====
-- src/modules/users: accounts, their administration and invitations.
pub mod Roles
pub mod Tables
pub mod Admin
pub mod Invites
pub mod Reset
mod Tests
