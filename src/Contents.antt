-- ===== src/Contents.antt =====
-- What a repo owns: dockerfiles, images with their versions, scan configs with their parameter values,
-- and flags, and the events that name them (src/safeharbor/server/InMemory.go).
pub mod Find
pub mod Link
pub mod Parameters
pub mod Create
pub mod Remove
pub mod Names
pub mod Adding
pub mod Refusal
pub mod Kept
