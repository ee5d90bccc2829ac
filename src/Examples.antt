-- ===== src/Examples.antt =====
-- Concrete inputs for the theorems: floats that are whole numbers, one task, and the results of its
-- two stages.
pub mod Data
mod Parsing
mod Frontiers
mod Stores
mod Slots
mod Diagnoses
mod Fleets
mod Archives
mod ServiceSpecs
