-- ===== src/Interp.antt =====
-- The interpreter of the IR: compiler/stage0/internal/interp.
pub mod Store
pub mod Arith
pub mod FoldAgrees
pub mod Machine
pub mod Refs
pub mod Exec
pub mod PruneSound
pub mod Call
pub mod PruneCalls
pub mod ConstsHold
pub mod KeepCells
pub mod FoldKnown
pub mod FreshCells
pub mod StoreHolds
pub mod ConstsStep
pub mod ConstsSound
pub mod CallsGrow
pub mod OptimizeSound
pub mod OptimizeCalls
pub mod OptimizeProgram
pub mod OptimizeExamples
pub mod Builtins
pub mod PushPop
pub mod Examples
pub mod AstEq
pub mod Safety
pub mod KeepRefs
pub mod Hygiene
