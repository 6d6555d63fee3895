-- ===== src/Metrics.antt =====
-- src/metrics.cpp and include/eventedge/metrics.hpp: the counters that every part reports to.
pub mod Registry
pub mod Counts
pub mod Totals
pub mod Orders
pub mod Labels
pub mod Render
pub mod Rendering
mod Examples
unfoldable pub use Registry.*
