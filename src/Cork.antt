-- ===== src/Cork.antt =====
-- x/cork: the validators' votes on calls of cellar contracts.
pub mod Types
pub mod Tally
pub mod Scheduling
pub mod Cellars
pub mod Validate
pub mod Reading
pub mod Invariant
pub mod Genesis
pub mod Tests
