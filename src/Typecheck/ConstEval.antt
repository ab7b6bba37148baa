-- ===== src/Typecheck/ConstEval.antt =====
-- The evaluation of constant expressions: compiler/stage0/internal/typecheck/const_eval.go.
pub mod Floats
pub mod Ops
pub mod Eval
pub mod Lowered
pub mod OpsAgree
pub mod Sound
pub mod Examples
