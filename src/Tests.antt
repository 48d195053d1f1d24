-- ===== src/Tests.antt =====
-- Concrete heaps, values and names, and the theorems on them.
pub mod Collector
pub mod Values
pub mod Objects
pub mod Code
pub mod Cycle
pub mod Collection
pub mod Emission
pub mod Hashing
