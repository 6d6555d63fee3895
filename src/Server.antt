-- ===== src/Server.antt =====
-- src/http_server.cpp and include/eventedge/http_server.hpp: the acceptor and its loop.
mod Acceptor
pub mod Loop
pub mod Closing
mod Examples
unfoldable pub use Acceptor.*
