-- ===== src/Loop.antt =====
-- The recurring loop of pi/extensions/classified-workflows/loop.ts: its command, schedule, stored
-- form and status line, and their laws.
pub mod Types
pub mod Command
pub mod Schedule
pub mod Store
pub mod Format
pub mod Bounds
pub mod RoundTrip
mod Tests
