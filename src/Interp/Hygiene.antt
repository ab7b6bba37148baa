-- ===== src/Interp/Hygiene.antt =====
-- The renaming of the variables of a quotation: `hygieneRenamer` of
-- compiler/stage0/internal/interp/quote.go.
pub mod Renamer
pub mod Patterns
pub mod Trees
pub mod Counter
pub mod Scopes
pub mod Laws
pub mod Examples
