-- ===== src/Lib.antt =====
-- A verification of parts of the compiler and its assembler: the register allocation, that is, the
-- passes over the IR of one function between lowering and code generation (CodeGen/RegAlloc) with
-- the part of the IR that they read, the code generation after it (CodeGen/codegen.c), the scopes and
-- types of the semantic analysis (Semantic), and the two passes of the assembler (assembler).
--
-- The compiler lowers the syntax tree to an IR of functions, blocks and instructions over virtual
-- registers (IR/ir.h, IR/ir.c). For each function the driver (main.c) then runs, in this order,
-- ir_liveness_compute, ifg_build, precolor_build, regalloc_build and spill_rewrite, and gives the
-- result to the code generator, which prints assembly for the 16-bit target.
--
-- Ir models the IR: Ir/Types the types and values, Ir/Instr the instructions, blocks and functions
-- (the linked lists become lists, the tagged unions data types), Ir/Build the builders.
-- VregSet models vreg_set_t of CodeGen/RegAlloc/liveness.c, an array of 64-bit words: VregSet/Laws
-- and VregSet/Union relate each operation to membership, VregSet/Members the bit loop. An assert
-- that fails is the result none.
-- Liveness models the rest of liveness.c: Liveness/Instr the registers that an instruction defines
-- and uses and the successors of a block, Liveness/Block the use and def sets and the backward pass
-- of one block, Liveness/Cfg the control-flow graph and the depth-first search, Liveness/Dataflow
-- the worklist, Liveness/Compute ir_liveness_compute as a whole, and Liveness/Result the struct
-- that it returns. The specification is Liveness/Compute/Paths: a register is live where a path
-- leads to its use.
-- Interference models interference.c: Interference/Adjacency the sorted lists, Interference/Matrix
-- the triangular bit matrix, Interference/Graph the edges and queries, Interference/Build
-- ifg_build.
-- Precolor models precolor.c: the two passes of precolor_build and the queries.
-- Regalloc models regalloc.c: Regalloc/Neighbors the helpers and the buffer of neighbours, and
-- Regalloc/Coalesce, Regalloc/Simplify, Regalloc/Select the phases 1, 2, 3 and 4 that
-- Regalloc/Build composes into regalloc_build.
-- Spill models spill.c: Spill/Entries phase A, Spill/Emit the emitted loads and stores,
-- Spill/Rewrite phase B and spill_rewrite; Spill/Reloads, Spill/Operands, Spill/Uses, Spill/Code
-- and Spill/Clean describe the code that comes out. qsort and the printing of a number by snprintf
-- are parameters.
-- Codegen models codegen.c. Codegen/Asm has the printed lines, a constructor for each mnemonic and
-- macro, and the expansion of the macros (assembler/Step1/abi.m4); text, comments and blank lines are
-- left out, and a register is the number of its name. Codegen/Registers chooses registers and
-- scratches, Codegen/Emit has the low-level emitters, Codegen/Frame the layout of the frame, prologue
-- and epilogue, Codegen/Call the calls, Codegen/Instr and Codegen/Opcodes emit_instr by opcode (its
-- result is none where the code prints a NULL name), and Codegen/Relax the relaxation of long branches
-- and codegen_emit_function, and Codegen/Module the data section and codegen_emit_module; the loop of the C code over the bytes of the buffer is one over the
-- lines. Codegen/Machine is the specification: what the instructions do, as
-- docs/Code Generation Specification.md and assembler/README.md describe them, with a run of the lines
-- in sweeps from the top, since a jump looks for its label in the lines that follow.
-- Codegen/Puts, Codegen/Arith, Codegen/Sums, Codegen/Or, Codegen/Compare, Codegen/Saved, Codegen/RoundTrip, Codegen/Slots,
-- Codegen/Kept (the registers that a function has to keep), Codegen/Loaded, Codegen/Freed, Codegen/Closes, Codegen/Relaxed and, for the arguments of calls, Codegen/Parallel, Codegen/Drains,
-- Codegen/Cycles, Codegen/Copies and Codegen/Arguments relate the emitted code to it.
-- Scope models the scopes and symbols of the semantic analysis (Semantic/symbol.c): the stack of
-- scopes, the hash, insertion and lookup. A scope heads the list of the scopes around it, and its
-- buckets are lists of symbols.
-- CType models the types of the semantic analysis (Semantic/type.c): equality, cloning and the
-- integral types.
-- Assembler models the assembler, a program of its own (assembler), behind its parser:
-- Assembler/Symbols the table of its symbols (assembler/Util/symbol_table.c), an array of entries
-- with hash chains of indices; Assembler/Statements the list that the first pass fills
-- (assembler/Util/statements_list.c); Assembler/Generate the second pass
-- (assembler/Step2/code_generator.c); Assembler/Counter relates the two. An int32_t of a statement
-- is its 32 bits.
-- Prelude holds what they share: Boolean tests, lists, single bits of a number, and the integers of
-- the working degrees. Tests holds worked examples.
--
-- Numbers are natural numbers. An unsigned addition or product that can wrap is written with its
-- remainder by 2 ^ 32 (u32_mod); size_t products that cannot wrap are written without. Sizes of
-- memory are not modelled, and allocation succeeds, so the failure returns of malloc are left out.
-- The loops that are not over a list run on fuel: the walk along the alias map on the number of
-- nodes, which bounds the chains of a forest; the simplification loop on the number of nodes, of
-- which each round takes one; the doubling of a capacity on 32 rounds; the binary search on the
-- length of the list; the bit loop on the 64 bits of a word; the search of the assembler's chains
-- on the next free index, since links go down; the copies of call arguments on one more than their number; the adjustment of sp on the words
-- that are left; the depth of the depth-first search on the number of
-- blocks, since each nested call marks one more; the worklist on nb * bits * (nb + 1) + nb rounds,
-- since a round either makes the queue shorter or adds a register to one of nb sets. What lies
-- behind the buffer of 512 neighbours is the parameter junk of the allocator, and the theorems ask
-- for at most 512 neighbours.
--
-- Not modelled: all that lies before register allocation, that is, lexer, parser, the passes of the
-- semantic analysis and lowering; of the code generator, the text (with the cut of a block label to
-- 127 bytes) and its parsing by the relaxation; of the assembler, its lexer, parser and driver; printing and freeing.
pub mod Assembler
pub mod Prelude
pub mod VregSet
pub mod Ir
pub mod Liveness
pub mod Interference
pub mod Precolor
pub mod Regalloc
pub mod Tests
pub mod Scope
pub mod Spill
pub mod CType
pub mod Codegen
