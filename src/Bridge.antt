-- ===== src/Bridge.antt =====
-- internal/bridge: the client of the upstream ollama-mcp-bridge.
mod Tests
pub mod Types
pub mod Document
pub mod Itoa
pub mod Stream
pub mod Client
