-- ===== src/Ir.antt =====
-- The intermediate representation and its optimiser: compiler/stage0/internal/ir.
pub mod Syntax
pub mod Fold
pub mod Inline
pub mod BlockPass
pub mod Prune
pub mod Reachable
pub mod Marking
pub mod Pruned
pub mod Passes
pub mod Examples
pub mod Bounds
pub mod Validate
