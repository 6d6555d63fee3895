-- ===== src/Proxy.antt =====
-- src/upstream_proxy.cpp and include/eventedge/upstream_proxy.hpp: one request to one upstream.
mod Host
pub mod Tokens
pub mod Stripping
pub mod Headers
pub mod Dropped
mod Machine
pub mod Once
mod Examples
unfoldable pub use Host.*
unfoldable pub use Machine.*
