-- ===== src/Server.antt =====
-- internal/server: the handlers of the API, the middleware around them and the route table.
mod Tests
pub mod Fixtures
pub mod Writer
pub mod World
pub mod Mux
pub mod Problem
pub mod Validation
pub mod Observe
pub mod Streaming
pub mod Ask
pub mod Routes
pub mod Status
pub mod Correlated
pub mod New
pub mod Upstream
pub mod Body
pub mod Script
pub mod Concurrent
pub mod Recorded
