-- ===== src/Upstream.antt =====
-- include/eventedge/upstream_config.hpp: the endpoints, and the pool that hands them out in turn.
-- The mutex makes each call one step, so a call is a function from the pool to the pool.
mod Pool
pub mod Select
pub mod Rotation
pub mod Health
mod Examples
unfoldable pub use Pool.*
