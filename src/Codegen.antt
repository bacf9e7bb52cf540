-- ===== src/Codegen.antt =====
-- CodeGen/codegen.c: the assembly of a function after register allocation.
pub mod Asm
pub mod Registers
pub mod Emit
pub mod Machine
pub mod Puts
pub mod Arith
pub mod Sums
pub mod Or
pub mod Frame
pub mod Call
pub mod Instr
pub mod Opcodes
pub mod Relax
pub mod Module
pub mod Relaxed
pub mod Compare
pub mod Saved
pub mod RoundTrip
pub mod Closes
pub mod Slots
pub mod Kept
pub mod Loaded
pub mod Freed
pub mod Parallel
pub mod Drains
pub mod Cycles
pub mod Copies
pub mod Arguments
