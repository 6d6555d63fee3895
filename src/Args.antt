-- ===== src/Args.antt =====
-- src/main.cpp: what `main` reads from the command line, down to the start of the servers.
mod Parse
pub mod Ports
pub mod Upstreams
pub mod Ranges
mod Examples
unfoldable pub use Parse.*
