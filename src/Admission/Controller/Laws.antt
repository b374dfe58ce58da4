-- ===== src/Admission/Controller/Laws.antt =====
-- What the admission controller does to the database.
pub mod Effect
pub mod Materialize
pub mod Budget
pub mod Pending
pub mod Reliable
pub mod Review
pub mod Closing
pub mod Converge
pub mod Rounds
pub mod Reclaimed
