-- ===== src/Payments.antt =====
-- internal/handler/payment_handler.go: the payments of the client apps.
pub mod Handler
pub mod Pay
pub mod Refund
pub mod Payout
pub mod Relay
pub mod Callback
pub mod Hosted
pub mod Delivery
pub mod Tracing
pub mod Draining
pub mod Ordering
pub mod Calls
pub mod Returning
pub mod Idempotence
pub mod Limits
pub mod References
pub mod Refusals
pub mod Slips
pub mod Backing
