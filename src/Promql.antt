-- ===== src/Promql.antt =====
-- internal/promql: queries over the cached envelopes.
pub mod Query
pub mod Names
pub mod Series
pub mod Select
pub mod Engine
pub mod DataReader
mod Tests
mod SelectTests
mod ReadTests
