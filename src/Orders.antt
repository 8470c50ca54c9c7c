-- ===== src/Orders.antt =====
-- The orders module (src/modules/orders): its models and services, and the handlers of its consumer.
pub mod Services
pub mod Handlers
