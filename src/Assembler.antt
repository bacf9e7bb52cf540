-- ===== src/Assembler.antt =====
-- The assembler, a program of its own (assembler).
pub mod Symbols
pub mod Statements
pub mod Generate
pub mod Counter
