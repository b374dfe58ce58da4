-- ===== src/Queue/Postgres/Laws.antt =====
-- What the statements of the queue do to the tables.
mod Enqueue
mod Claim
pub mod Moved
pub mod Reclaim
mod Moves
mod Unique
mod Sequences
pub use Enqueue.*
pub use Claim.*
pub use Unique.{Sound}
pub use Sequences.*
