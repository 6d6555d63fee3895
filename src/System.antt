-- ===== src/System.antt =====
-- The whole program while it serves: the parts of src/main.cpp, src/http_server.cpp,
-- src/http_session.cpp, src/upstream_proxy.cpp and src/upstream_health_monitor.cpp at work together.
mod State
mod View
mod Sound
pub mod Refines
mod Turns
mod Arrivals
pub mod History
mod Waiting
pub mod Served
mod Examples
unfoldable pub use State.*
