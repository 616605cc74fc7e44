-- ===== src/PathPlan.antt =====
-- internal/pathplan: which component owns which file of a source tree. An ownership is a list of
-- components with their paths; its order, like that of the other Go maps here, is arbitrary.
pub mod Compile
pub mod Ownership
pub mod Plan
pub mod Entrypoint
pub mod Dependencies
mod Tests
