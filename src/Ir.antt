-- ===== src/Ir.antt =====
-- The three-address IR of IR/ir.h and its builders in IR/ir.c. The linked lists of instructions,
-- blocks and slots are lists; a union under an enum is a data type whose constructors carry the
-- members (`as.call` under `IR_OP_CALL`, and so on). A text is the list of its bytes. `calloc` and
-- `malloc` are taken to succeed; the serialiser and the `free` functions are not modelled.
pub mod Types
pub mod Instr
pub mod Build
