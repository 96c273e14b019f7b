-- ===== src/Tests.antt =====
-- Runs at concrete inputs, where the hypotheses of the theorems hold.
mod Sample
mod Access
mod Entries
mod Sessions
mod Parties
mod Requests
mod Removal
mod Deletion
mod Json
mod Contents
mod Email
mod Queries
mod Owners
