-- ===== src/Questions.antt =====
-- The question queue of pi/extensions/questions/state.ts: its data, the actions on it, and their laws.
pub mod Types
pub mod Action
pub mod Invariant
mod Tests
