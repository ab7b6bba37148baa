-- ===== src/Interp/AstEq.antt =====
-- The equality of syntax trees: compiler/stage0/internal/interp/ast_eq.go.
pub mod Types
pub mod Trees
pub mod Sound
pub mod Self
pub mod Items
pub mod Laws
pub mod ItemLaws
pub mod Examples
