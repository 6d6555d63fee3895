-- ===== src/Cache.antt =====
-- include/eventedge/response_cache.hpp and src/response_cache.cpp: the LRU cache with a time to live.
mod Store
pub mod Spec
pub mod Refines
pub mod Laws
mod Examples
unfoldable pub use Store.*
