-- ===== src/Lib.antt =====
-- Kynema-FMB: the model of a flexible multibody system, the numbering of its degrees of freedom, the
-- structure of the matrix that its solver works on, the state and its files.
--
-- A model is built by calls that add nodes, elements and constraints; state, elements, constraints and
-- solver are created from it (src/model). Nodes carry degrees of freedom. Every beam, mass, spring and constraint asks for some of them at its
-- nodes; the allocation table is the union of what is asked for, a scan over the counts of its entries
-- gives every node the first of its numbers, and freedom tables give elements and constraints the
-- numbers of their nodes (src/dof_management). CreateSolver (src/model/model.hpp) runs these steps and
-- builds the solver, whose matrix has a row for every degree of freedom and for every row of a
-- constraint (src/solver). A state can be cloned, copied back and written to a restart file
-- (src/state), a step iterates the solver and may reduce the load (src/step), and outputs are written
-- to a file in batches (src/utilities/netcdf).
--
-- Paths are from the root of the repository.
--
-- Base: names of the libraries, lists, Kokkos views as functions of an index with a write, the loop
--   `parallel_for` with its laws, bits, sums of the values below a bound.
-- Dof/Signature: src/dof_management/freedom_signature.hpp. count_active_dofs is on eight rounds of
--   fuel; a byte has no bit left after them, and Dof/Signature/Laws shows that more change nothing.
-- Dof/Allocation: assemble_node_freedom_allocation_table.hpp, one function per kernel. Union relates
--   the table to the list of the requests, Order to any order of them, Named to the named signatures.
-- Dof/Numbering: compute_node_freedom_map_table.hpp and src/solver/compute_num_system_dofs.hpp. A scan
--   is its final pass. `num_system_nodes - 1` is taken modulo 2 ^ 64.
-- Dof/Tables: create_element_freedom_table.hpp and create_constraint_freedom_table.hpp.
-- Dof/System: the first four calls of CreateSolver, on a record of state, elements and constraints.
-- Elements: src/elements, the connectivity of beams, masses and springs, and the joined views of
--   elements.hpp, with Elements/Joined on what they hold.
-- ConstraintType, Constraints: src/constraints/constraint_type.hpp, constraint.hpp, constraints.hpp.
--   The sum of the rows is kept in 32 bits, as the `0U` that it starts from makes it.
-- Solver/Ints: the type `int` of row pointers and column indices, with its wrap-around. Solver/Placed:
--   constraints whose nodes are nodes of the system.
-- Solver/Connectivity: the arguments of CreateFullMatrix and the tests of the kernels on them.
-- Solver/Pattern: the rows that the kernels write, as lists of columns, by no loop over memory.
-- Solver/Rows: compute_system_row_entries.hpp, compute_constraints_row_entries.hpp,
--   scan_row_entries.hpp, compute_row_ptrs.hpp.
-- Solver/Columns: compute_system_col_inds.hpp, compute_constraints_col_inds.hpp, compute_col_inds.hpp.
--   Fill, Rows, Kernel, ConstraintKernel and Whole follow the cursor, the rows of a node, the two
--   kernels and all of them.
-- Solver/Creation: CreateSolver and the initialisers of src/solver/solver.hpp; Rows says
--   what a row should hold in terms of elements and constraints, Matrix joins the numbering to the
--   kernels.
-- Solver/Forces: contribute_forces_to_vector.hpp and its call in src/step/assemble_system_residual.hpp.
-- Solver/Assembly: contribute_{beams,masses,springs}_to_vector.hpp,
--   contribute_constraints_system_residual_to_vector.hpp, contribute_lambda_to_vector.hpp and their calls
--   in src/step. Terms has additions as lists, Flat the loop over one index for node and component.
-- Solver/ConstraintRows: copy_constraints_residual_to_vector.hpp and
--   src/constraints/update_lambda_prediction.hpp, over all constraints.
-- State: src/state/state.hpp. Snapshot: clone_state.hpp and copy_state_data.hpp. Restart:
--   write_state_to_file.hpp and read_state_from_file.hpp, on a stream of eight-byte words whose casts
--   are parameters. Prediction: update_static_prediction.hpp, update_dynamic_prediction.hpp and their
--   call in src/step/update_state_prediction.hpp. NextState: calculate_next_state.hpp and
--   src/step/predict_next_state.hpp.
-- Step: src/step/step.hpp, SolveStep and Step. What an iteration calls is a parameter, as is the
--   arithmetic on `double`. The loop is on `max_iter` rounds of fuel, which is its own limit; the load
--   reduction is on its number of retries.
-- Output/TimeSeries: src/utilities/netcdf/time_series_writer.cpp; the file is the list of the calls
--   that it is given.
-- Output/NodeStates: src/utilities/netcdf/node_state_writer.cpp, over the same kind of list. An exception of
--   the file for a variable that is not defined is one of the results. Pending follows a record through
--   the buffers, Accepted has the branches of a call.
-- Model/Nodes: src/model/node.hpp; arithmetic of `double` and calls of Eigen are parameters.
-- Model/Building: the operations of the class Model of src/model/model.hpp. Model/Calls: the models
--   that sequences of them build. Moved: TranslateBeam and the three functions like it.
-- Model/State: copy_nodes_to_state.hpp, src/state/update_global_position.hpp, CreateState.
-- Model/Creation: CreateElements with src/elements/*/create_*.hpp, CreateSystem and
--   CreateSystemWithSolver. Coupled follows an element from the call that adds it to the matrix.
-- Model/Maps, Model/Mesh: src/model/mesh_connectivity.hpp. Mesh/Yaml has the export and the import, with
--   the YAML library as a parameter and its documented laws as a record.
-- Tests: concrete systems, and the theorems on them.
--
-- A view that is made without initialisation is an argument, so that a theorem holds whatever its
-- memory held. Kernels run their indices in order, as the serial backend does; for the atomic
-- operations of the allocation table every other order is covered. Numbers of type size_t are natural
-- numbers without a bound where the program only adds them; entries of the matrix are
-- counted in `int`, with its wrap-around, and theorems on them assume fewer than 2 ^ 31; the place in a
-- row moves between two row pointers, and its steps are not wrapped.
--
-- Not modelled: arithmetic on `double`, so the physics of elements and constraints,
-- displacements and positions, and all of src/math; the assembly of values into the matrix; the linear
-- solvers and the sorting of the rows, which are calls of libraries; the text of YAML files; the netCDF wrapper; interfaces and controllers.
pub mod Base
pub mod Dof
pub mod Solver
pub mod Elements
pub mod State
pub mod ConstraintType
pub mod Constraints
pub mod Step
pub mod Output
pub mod Model
pub mod Tests
