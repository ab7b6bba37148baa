-- ===== src/Typecheck.antt =====
-- The type checker: compiler/stage0/internal/typecheck.
pub mod ConstEval
pub mod Types
pub mod Clone
