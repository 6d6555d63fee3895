-- ===== src/Monitor.antt =====
-- src/upstream_health_monitor.cpp and include/eventedge/upstream_health_monitor.hpp: one check of
-- one upstream, and the rounds of checks.
mod Check
mod Rounds
pub mod Verdict
pub mod Marks
pub mod Conclusion
mod Advance
pub mod Going
pub mod Reacting
pub mod History
pub mod Stopped
pub mod Ends
pub mod Writes
mod Examples
unfoldable pub use Check.*
unfoldable pub use Rounds.*
