-- ===== src/Backlog.antt =====
-- The canonical backlog (pi/extensions/shared/canonical-backlog.ts), and its laws.
pub mod Requirements
pub mod Snapshot
pub mod Pieces
pub mod Lossless
pub mod Canonical
mod Tests
