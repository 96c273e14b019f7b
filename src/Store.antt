-- ===== src/Store.antt =====
-- src/safeharbor/server/InMemory.go and Persistence.go in the in-memory mode: the objects, the
-- state and the operations on single objects.
mod Objects
mod Monad
mod Client
pub mod View
pub mod Reads
pub mod Places
pub mod Runs
pub mod Steps
pub mod Fresh
pub use Objects.*
pub use Monad.*
unfoldable pub use Client.*
