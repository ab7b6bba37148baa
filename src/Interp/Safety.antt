-- ===== src/Interp/Safety.antt =====
-- Panics of the interpreter of compiler/stage0/internal/interp.
pub mod Live
pub mod Ops
pub mod Refs
pub mod Changes
pub mod Operands
pub mod Steps
pub mod Calls
pub mod Panics
pub mod Builtins
pub mod Examples
