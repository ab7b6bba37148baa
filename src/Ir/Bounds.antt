-- ===== src/Ir/Bounds.antt =====
-- The numbers of the temps of a function of compiler/stage0/internal/ir.
pub mod Below
pub mod Remap
pub mod Inlined
pub mod Examples
