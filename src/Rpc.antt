-- ===== src/Rpc.antt =====
-- The JSON-RPC connection to a language server (pi/extensions/lsp/json-rpc.ts): its frames, its
-- requests and their answers, its outbound queue, and their laws.
pub mod Types
pub mod Frame
pub mod Link
pub mod Dispatch
pub mod Connection
pub mod Framing
pub mod Draining
pub mod Stream
pub mod Moves
pub mod Queue
pub mod Accounts
pub mod Sound
pub mod Runs
mod Tests
