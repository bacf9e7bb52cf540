-- ===== src/Interference.antt =====
-- CodeGen/RegAlloc/interference.c: the interference graph, a triangular bit matrix with a sorted
-- adjacency list for each node. `realloc` and `calloc` are taken to succeed, so the results -1 and
-- NULL do not occur; the capacity of the move list is not modelled.
pub mod Adjacency
pub mod Matrix
pub mod Graph
pub mod Build
