-- ===== src/Parties.antt =====
-- Users and groups of src/safeharbor/server/InMemory.go.
pub mod Users
pub mod Groups
pub mod Logins
pub mod Membership
pub mod Joining
