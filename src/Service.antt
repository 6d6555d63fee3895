-- ===== src/Service.antt =====
-- src/http_session.cpp, src/http_server.cpp and src/upstream_health_monitor.cpp at work together: many
-- sessions over the same objects, with the handlers called in any order.
pub mod World
pub mod Counts
pub mod Flights
pub mod Ledger
pub mod Routes
pub mod Handlers
pub mod Balance
pub mod History
pub mod Waiters
pub mod Answer
pub mod Examples
unfoldable pub use World.*
