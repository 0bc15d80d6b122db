-- ===== src/Messaging.antt =====
-- internal/messaging: the Kafka producer, the consumer loop and the dead letter queue worker.
pub mod Headers
pub mod Kafka
pub mod Clients
pub mod Producer
pub mod Reports
pub mod Consumer
pub mod Backoff
pub mod Dlq
pub mod Life
