-- ===== src/Cache/Refines.antt =====
-- The nodes, the entries and the iterators between them stand for the list of items.
mod Chain
mod Relation
mod Creation
mod Calls
pub use Relation.{Represents, find}
pub use Creation.*
pub use Calls.*
