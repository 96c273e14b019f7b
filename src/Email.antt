-- ===== src/Email.antt =====
-- The verification of email addresses by a token that is sent to them
-- (src/safeharbor/server/EstablishEmail.go), and the handlers that use it.
pub mod Establish
pub mod Requests
pub mod Tokens
