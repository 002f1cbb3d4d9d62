-- ===== src/Postgres.antt =====
-- The Postgres backend: shim/internal/storage/postgres.
pub mod Tables
pub mod Receipts
pub mod Queues
pub mod Messages
pub mod LongPoll
pub mod Reaper
pub mod Keeps
pub mod Steps
pub mod WellFormed
pub mod Dedup
pub mod Sending
pub mod Handles
pub mod Hidden
pub mod Exclusive
pub mod Backend
pub mod FilterPolicy
pub mod Topics
pub mod Notify
