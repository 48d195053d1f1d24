-- ===== src/Compiler.antt =====
-- The compiler from Lama bytecode to RISC-V: comp/include and comp/src.
pub mod Asm
pub mod Stack
pub mod Buffer
pub mod Machine
pub mod Binop
pub mod Instruction
pub mod TagHash
pub mod Bytefile
pub mod Reader
pub mod State
pub mod Call
pub mod Emit
pub mod Driver
pub mod Main
pub mod Lines
pub mod Extends
pub mod CallExtends
pub mod StackExtends
pub mod CodeExtends
pub mod Linked
