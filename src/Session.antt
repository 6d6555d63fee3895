-- ===== src/Session.antt =====
-- src/http_session.cpp and include/eventedge/http_session.hpp: one client connection.
mod Objects
mod Routing
pub mod Joins
pub mod Storing
pub mod Traces
pub mod Flight
mod Examples
unfoldable pub use Objects.*
unfoldable pub use Routing.*
