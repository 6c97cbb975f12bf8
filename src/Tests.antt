-- ===== src/Tests.antt =====
-- The properties at concrete inputs.
mod Samples
mod Ledgers
mod Commissions
mod Guarded
mod Paid
mod Signed
mod Shown
mod Refused
mod Sent
mod Listed
mod Started
mod Migrated
mod Booked
mod Ordered
mod Opened
