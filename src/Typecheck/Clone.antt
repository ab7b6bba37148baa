-- ===== src/Typecheck/Clone.antt =====
-- The copies of generic functions for concrete types: compiler/stage0/internal/typecheck/clone.go.
pub mod Types
pub mod Trees
pub mod Avoids
pub mod Closures
pub mod TypesAvoid
pub mod TreesAvoid
pub mod Unresolved
pub mod Same
pub mod Laws
pub mod Examples
