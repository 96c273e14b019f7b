-- ===== src/Realms.antt =====
-- Realms of src/safeharbor/server/InMemory.go: who and what belongs to them, how they are created
-- and deactivated.
pub mod Lookup
pub mod Members
pub mod Create
pub mod Remove
pub mod Deletion
pub mod Failure
