-- ===== src/CellarFees.antt =====
-- x/cellarfees: the module that collects the fees of the cellars and hands them out.
pub mod Types
pub mod Counters
pub mod Emission
pub mod Params
pub mod Genesis
pub mod Reading
pub mod Blocks
pub mod Hooks
pub mod Tests
