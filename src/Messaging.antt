-- ===== src/Messaging.antt =====
-- src/core/messaging.py: the event envelope and the Kafka producer.
pub mod Envelope
pub mod Dict
pub mod Producer
