-- ===== src/Acl.antt =====
-- The access control lists of src/safeharbor/server/InMemory.go.
pub mod Entries
pub mod Access
pub mod Create
pub mod Find
pub mod Laws
pub mod Ids
pub mod RoundTrip
