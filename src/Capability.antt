-- ===== src/Capability.antt =====
-- The capability circuit and the pause of a session's continuation (capability-circuit.ts and index.ts
-- of pi/extensions/classified-workflows, capability-state.ts and continuation-pause.ts of
-- pi/extensions/shared), and their laws.
pub mod Circuit
pub mod Pause
pub mod Session
pub mod Streak
pub mod Durable
pub mod Restarts
mod Tests
