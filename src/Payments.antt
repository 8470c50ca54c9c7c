-- ===== src/Payments.antt =====
-- The payments module (src/modules/payments): its models, the idempotency lock and the service.
pub mod Models
pub mod Lock
pub mod Service
