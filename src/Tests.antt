-- ===== src/Tests.antt =====
-- Concrete inputs, on which the theorems of the other modules are applied.
pub mod Assembly
pub mod Data
pub mod Documents
pub mod Dofs
pub mod Matrix
pub mod Models
pub mod ModelRows
pub mod Output
pub mod Rows
pub mod States
pub mod Steps
pub mod NodeStates
