-- ===== src/Solver.antt =====
-- src/solver: the sparsity pattern of the system matrix, and the residual.
pub mod Ints
pub mod Placed
pub mod Connectivity
pub mod Pattern
pub mod Rows
pub mod Columns
pub mod Creation
pub mod Forces
pub mod Assembly
pub mod ConstraintRows
