-- ===== src/Interp/KeepRefs.antt =====
-- What a call of compiler/stage0/internal/interp leaves of the references that were there before.
pub mod Gives
pub mod Frames
pub mod Calls
pub mod Examples
