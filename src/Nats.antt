-- ===== src/Nats.antt =====
-- The NATS JetStream backend: shim/internal/storage/nats. The broker is a parameter.
pub mod Names
pub mod Receipts
pub mod Headers
pub mod Broker
pub mod Metadata
pub mod Queues
pub mod Messages
pub mod Topics
pub mod Backend
