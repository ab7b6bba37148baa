-- ===== src/Ast.antt =====
-- The syntax tree and the printing of literals: compiler/stage0/internal/ast.
pub mod Types
pub mod Values
pub mod Tree
pub mod Items
pub mod Escape
pub mod RoundTrip
pub mod Examples
