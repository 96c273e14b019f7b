-- ===== src/Handlers.antt =====
-- The request handlers of src/safeharbor/server/Handlers.go and HandlerUtils.go that authenticate
-- users and change users, groups and permissions, and the dispatcher that runs a handler in a
-- transaction.
pub mod Request
pub mod Identity
pub mod Gate
pub mod Guarded
pub mod Login
pub mod Entrance
pub mod Permissions
pub mod Groups
pub mod Users
pub mod Queries
pub mod ReadOnly
pub mod Contents
pub mod Removal
pub mod Dispatch
pub mod Transactions
