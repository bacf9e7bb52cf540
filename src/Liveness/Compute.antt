-- ===== src/Liveness/Compute.antt =====
-- `ir_liveness_compute` as a whole.
pub mod Blocks
pub mod Correct
pub mod Paths
use compilador.Prelude.{
  ℕ, ◌+◌, List, [], ◌∷◌, ◌++◌, Option, none, some, if◌then◌else◌, ◌==◌, get_or, length, ◌>>=◌,
}
use compilador.VregSet.{VregSet, init}
use compilador.Ir.Instr.{Block, Function}
use compilador.Liveness.Block.{UseDef, block_use_def, block_live_after}
use compilador.Liveness.Result.{BlockLiveness, IrLiveness, instrs_of}
use compilador.Liveness.Cfg.{CfgNode, block_map, build_cfg, rpo_of}
use compilador.Liveness.Dataflow.{Env, Flow, set_at, solve}

-- Step 5, for one id.
pub use_def_of : ℕ → Option Block → Option UseDef
use_def_of ncap none = some (record { use_set = init ncap; def_set = init ncap })
use_def_of ncap (some b) =
    block_use_def (record { use_set = init ncap; def_set = init ncap }) b.instrs

unfoldable pub use_defs_of : ℕ → List (Option Block) → Option (List UseDef)
unfolding use_def_of
use_defs_of ncap [] = some []
use_defs_of ncap (b ∷ bs) = do ud ← use_def_of ncap b; uds ← use_defs_of ncap bs; some (ud ∷ uds)

-- Step 7, over the block list.
unfoldable pub live_afters : ℕ → List VregSet → List Block → Option (List VregSet)
live_afters ncap live_out [] = some []
live_afters ncap live_out (b ∷ bs) = do
  sets ← block_live_after ncap b.instrs (set_at live_out b.id)
  rest ← live_afters ncap live_out bs
  some (sets ++ rest)

-- The four sets of each block.
pub block_sets : List UseDef → List VregSet → List VregSet → List BlockLiveness
block_sets (ud ∷ uds) (inn ∷ inns) (out ∷ outs) =
    record { use_set = ud.use_set; def_set = ud.def_set; live_in = inn; live_out = out }
    ∷ block_sets uds inns outs
block_sets uds inns outs = []

-- `nv == 0 ? 1 : nv`
abbrev pub capacity : ℕ → ℕ
capacity nv = if nv == 0 then 1 else nv

abbrev pub env_of : Function → List UseDef → Env
env_of func uds =
    let by_id = block_map func.next_block_id func.blocks in
    record {
      ncap = capacity func.next_vreg;
      by_id = by_id;
      cfg = build_cfg func.next_block_id by_id;
      use_defs = uds;
    }

-- `func->entry` is the first block; without one it is NULL, and the code reads through it.
pub compute_from : Function → List Block → Option IrLiveness
unfolding block_sets
compute_from func [] = none
compute_from func (entry ∷ others) = do
  uds ← use_defs_of (capacity func.next_vreg) (block_map func.next_block_id func.blocks)
  flow ←
      solve (env_of func uds) func.next_block_id
        (rpo_of func.next_block_id (env_of func uds).cfg entry.id)
  afters ← live_afters (capacity func.next_vreg) flow.live_out func.blocks
  some (record {
    n_vregs = func.next_vreg;
    n_blocks = func.next_block_id;
    n_instrs = length (instrs_of func.blocks);
    blk = block_sets uds flow.live_in flow.live_out;
    live_after = afters;
  })

-- The inner `none` is the NULL that a function without block ids gets.
unfoldable pub ir_liveness_compute : Function → Option (Option IrLiveness)
unfolding compute_from
ir_liveness_compute func =
    if func.next_block_id == 0
    then some none
    else compute_from func func.blocks >>= λ liv. some (some liv)
