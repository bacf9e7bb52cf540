-- ===== src/Liveness.antt =====
-- CodeGen/RegAlloc/liveness.c over the sets of `VregSet`: which registers an instruction defines and
-- uses, the successors of a block, `use` and `def` of a block, and the sets after each instruction.
pub mod Instr
pub mod Block
pub mod Result
pub mod Cfg
pub mod Dataflow
pub mod Compute
