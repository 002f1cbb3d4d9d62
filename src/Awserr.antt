-- ===== src/Awserr.antt =====
-- shim/internal/awserr/awserr.go: the registry of sender faults and the translation of storage
-- errors into AWS codes.
pub mod Code
pub mod Faults
