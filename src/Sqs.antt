-- ===== src/Sqs.antt =====
-- The SQS semantics: shim/internal/sqs/service.go.
pub mod Validation
pub mod Service
pub mod Messages
pub mod Batch
pub mod FromQuery
pub mod FromJson
