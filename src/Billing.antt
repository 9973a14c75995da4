-- ===== src/Billing.antt =====
-- services/billing-svc.
pub mod Credits
pub mod Dunning
pub mod Subscriptions
pub mod Refunds
mod Tests
