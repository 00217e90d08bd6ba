-- ===== src/Goal.antt =====
-- The session goal of pi/extensions/classified-workflows/goal.ts: its command, evaluation, stored
-- form, status line and the session log that it reads, and their laws.
pub mod Types
pub mod Command
pub mod Evaluation
pub mod Store
pub mod Session
pub mod Progress
pub mod Checks
pub mod Recovery
pub mod Tracked
mod Tests
