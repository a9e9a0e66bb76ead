-- ===== src/Store.antt =====
-- internal/cache/store/store.go: the in-memory store of envelopes.
pub mod State
pub mod Put
pub mod Expire
pub mod Get
pub mod Meta
mod Tests
unfoldable pub use State.*
