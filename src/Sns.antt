-- ===== src/Sns.antt =====
-- The SNS semantics: shim/internal/sns/service.go.
pub mod Validation
pub mod Service
pub mod Names
pub mod Delivers
pub mod FromQuery
pub mod FromJson
