-- ===== src/Regalloc.antt =====
-- CodeGen/RegAlloc/regalloc.c: the allocator, in its four phases.
pub mod Neighbors
pub mod Coalesce
pub mod Simplify
pub mod Select
pub mod Build
