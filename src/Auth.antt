-- ===== src/Auth.antt =====
-- internal/auth: the bearer-token check in front of every authenticated route.
mod Tests
pub mod Header
pub mod Source
pub mod Interleaving
