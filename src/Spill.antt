-- ===== src/Spill.antt =====
-- CodeGen/RegAlloc/spill.c: registers without a machine register move to stack slots.
pub mod Entries
pub mod Emit
pub mod Rewrite
pub mod Reloads
pub mod Operands
pub mod Uses
pub mod Code
pub mod Clean
pub mod Correct
