-- ===== src/Tokens.antt =====
-- The token limit of a workflow's child (pi/extensions/classified-workflows/token-cap.ts), and its laws.
pub mod Cap
pub mod Prompt
pub mod Limits
pub mod Budget
pub mod Child
mod Tests
