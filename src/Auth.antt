-- ===== src/Auth.antt =====
-- internal/auth: who may read which sources.
pub mod Middleware
pub mod Capi
pub mod Uaa
mod Tests
mod UaaTests
