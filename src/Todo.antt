-- ===== src/Todo.antt =====
-- The todo list of pi/extensions/todo/state.ts: its data, transitions, reminders, requests and
-- listing, and their laws.
pub mod Types
pub mod Format
pub mod Transition
pub mod Wake
pub mod Parse
pub mod Changes
pub mod Invariant
pub mod Reminders
pub mod Waking
pub mod Listing
pub mod Timestamp
pub mod Requests
pub mod Asking
mod Tests
