-- ===== src/Protocol.antt =====
-- The wire formats: shim/internal/protocol.
pub mod Arn
pub mod Attributes
pub mod Action
pub mod Query
pub mod Json
pub mod Wire
