-- ===== src/Process.antt =====
-- cmd/gateway/main.go: the process around the gateway.
pub mod Lifecycle
pub mod Listeners
pub mod Wiring
pub mod Serving
mod Tests
