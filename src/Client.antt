-- ===== src/Client.antt =====
-- pkg/client: the requests of a client, and how it reads a source batch by batch.
pub mod Walk
pub mod Requests
pub mod Http
pub mod Window
mod Tests
