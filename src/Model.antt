-- ===== src/Model.antt =====
-- src/model: the nodes, elements and constraints of a model, and what is created from them.
pub mod Maps
pub mod Mesh
pub mod Nodes
pub mod Building
pub mod Moved
pub mod Calls
pub mod State
pub mod Creation
