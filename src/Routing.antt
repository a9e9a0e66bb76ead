-- ===== src/Routing.antt =====
-- internal/routing: which node of the cluster holds a source, and the proxies that send there.
pub mod Table
pub mod Static
pub mod Orchestrator
pub mod LocalReader
pub mod Ingress
pub mod Egress
mod Tests
