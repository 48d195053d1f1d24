-- ===== src/Gc.antt =====
-- The collector: runtime/gc.c and runtime/gc.h, in the build without DEBUG_VERSION and
-- FULL_INVARIANT_CHECKS and with LAMA_ENV.
pub mod State
pub mod Object
pub mod Layout
pub mod Field
pub mod Roots
pub mod Bump
pub mod Mark
pub mod Compact
pub mod Alloc
pub mod Collect
pub mod Reach
pub mod Cycle
