-- ===== src/Runtime.antt =====
-- The C runtime: runtime/runtime.c, runtime/runtime_common.h.
pub mod Value
pub mod Infix
pub mod TagHash
pub mod Access
pub mod Pattern
pub mod Build
pub mod Compare
pub mod Hash
