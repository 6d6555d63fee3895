-- ===== src/Parallel.antt =====
-- Sessions whose handlers alternate between the calls that they make of the objects under mutexes.
mod State
pub mod View
pub mod Calls
pub mod Ends
pub mod Parts
pub mod History
mod Examples
unfoldable pub use State.*
