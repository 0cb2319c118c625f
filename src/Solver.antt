-- ===== src/Solver.antt =====
-- The dependency solver's search: apt-pkg/solver3.cc and apt-pkg/solver3.h. `Types` is its data,
-- `Propagate` and `Search` its operations; the other modules have the proofs.
pub mod Types
pub mod Propagate
pub mod Search
pub mod Model
pub mod Invariant
pub mod Clauses
pub mod Inference
pub mod Runs
pub mod Positions
pub mod Undo
pub mod Refute
pub mod Answer
pub mod Register
pub mod Order
pub mod Ending
mod Tests
