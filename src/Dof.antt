-- ===== src/Dof.antt =====
-- src/dof_management: which degrees of freedom each node has and how they are numbered.
pub mod Signature
pub mod Allocation
pub mod Numbering
pub mod Tables
pub mod System
