-- ===== src/Compaction.antt =====
-- The safe compaction of a session (pi/extensions/safe-compaction/state.ts and index.ts): its state
-- and stored form, the transition before a compaction, the recovery from an overflow, the handlers of
-- the session's events, and their laws.
pub mod Types
pub mod Decode
pub mod Transition
pub mod Overflow
pub mod Session
pub mod Checkpoint
pub mod Restore
pub mod Soundness
pub mod Durable
pub mod Reached
mod Tests
