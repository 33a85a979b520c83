-- ===== src/Webhook.antt =====
-- pkg/webhook: the validators of pools and checkouts, and the access check on checkouts.
pub mod Validators
pub mod Access
pub mod Injection
pub mod Agreement
pub mod Acceptance
pub mod Server
pub mod Serving
