-- ===== src/Ledger/Handlers.antt =====
-- Every handler that writes `payments` keeps the ledger, whatever the database, the gateway and
-- the apps answer.
pub mod Pay
pub mod Refund
pub mod Payout
pub mod Relay
pub mod TestPage
pub mod Admin
pub mod Signup
pub mod Server
pub mod Listings
