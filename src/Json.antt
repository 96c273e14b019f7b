-- ===== src/Json.antt =====
-- The text form of persistent objects: DBjson.go reads it, the asJSON methods of InMemory.go write
-- it (both in src/safeharbor/server).
pub mod Tokens
pub mod Values
pub mod Reader
pub mod Simple
pub mod Parse
pub mod Ends
pub mod Print
pub mod Reconstitute
pub mod Methods
pub mod RoundTrip
