-- ===== src/Liveness/Result.antt =====
-- `ir_liveness_t`: the result of the liveness analysis of one function.
use compilador.Prelude.{ℕ, List, [], ◌∷◌, ◌++◌}
use compilador.VregSet.{VregSet}
use compilador.Ir.Instr.{Instr, Block}

pub record BlockLiveness : Type 0 where
  pub use_set : VregSet
  pub def_set : VregSet
  pub live_in : VregSet
  pub live_out : VregSet

-- `live_after` of each instruction, in the order of the block list.
pub record IrLiveness : Type 0 where
  pub n_vregs : ℕ
  pub n_blocks : ℕ
  pub n_instrs : ℕ
  pub blk : List BlockLiveness
  pub live_after : List VregSet

-- The instructions in the order in which `for (b) for (ins)` visits them.
abbrev pub instrs_of : List Block → List Instr
instrs_of [] = []
instrs_of (b ∷ bs) = b.instrs ++ instrs_of bs
