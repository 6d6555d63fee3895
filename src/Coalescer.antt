-- ===== src/Coalescer.antt =====
-- include/eventedge/request_coalescer.hpp and src/request_coalescer.cpp: one flight for the
-- requests that miss the cache for the same key at once.
mod Flights
pub mod History
mod Steps
mod Balance
pub mod Delivery
mod Examples
unfoldable pub use Flights.*
