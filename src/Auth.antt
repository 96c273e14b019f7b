-- ===== src/Auth.antt =====
-- src/safeharbor/server/auth.go: who may do what.
pub mod Masks
pub mod Sessions
pub mod SessionLaws
pub mod Numerals
pub mod Access
pub mod Rules
pub mod Spec
pub mod Decision
pub mod Complete
pub mod Unchanged
