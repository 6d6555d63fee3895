-- ===== src/Main.antt =====
-- src/main.cpp: how the parts are put together, and how the program ends.
mod Launch
mod Workers
pub mod Ready
pub mod Ending
pub mod Finishing
pub mod Signal
mod Examples
unfoldable pub use Launch.*
unfoldable pub use Workers.*
