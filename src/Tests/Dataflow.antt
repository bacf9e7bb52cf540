-- ===== src/Tests/Dataflow.antt =====
-- A function with a loop, for the analysis over the control-flow graph.
use compilador.Prelude.{
  ℕ, ◌<◌, ◌≤◌, ◌≡◌, ◌^◌, refl, true, some, Option, List, [], ◌∷◌, arith, elem, All, All-get_or_lt,
  Returns, ltb, Bool-cases, inl, inr,
}
use compilador.VregSet.{VregSet, init, has}
use compilador.VregSet.Laws.{IsSized, has-out}
use compilador.Ir.Types.{IrType, no_value}
use compilador.Ir.Instr.{Op, Instr, Block, Function}
use compilador.Liveness.Instr.{instr_get_uses, instr_get_def, block_get_succs}
use compilador.Liveness.Block.{UseDef}
use compilador.Liveness.Block.Summary.{AreBelow}
use compilador.Liveness.Result.{IrLiveness}
use compilador.Liveness.Cfg.{CfgNode, build_cfg, rpo_of}
use compilador.Liveness.Cfg.Edges.{
  AreSuccsBelow, AreEdges, build_cfg-AreEdges, succs-inside, preds-inside, preds-eq_succs,
}
use compilador.Liveness.Cfg.Search.{IsOrder, rpo_of-IsOrder}
use compilador.Liveness.Dataflow.{Env, solve, no_use_def, use_def_at}
use compilador.Liveness.Dataflow.Equations.{mem, AreSets, IsEnv}
use compilador.Liveness.Dataflow.Progress.{IsSolved, IsClosed, is_present}
use compilador.Liveness.Dataflow.Solve.{solve-Returns}
use compilador.Liveness.Compute.{ir_liveness_compute}
use compilador.Liveness.Compute.Paths.{IsWellFormed}
use compilador.Liveness.Compute.Correct.{IsExact, ir_liveness_compute-Returns}
use compilador.Tests.{v, const_to, add_to, ret_of, of_mask, of_mask-IsSized}

abbrev jump : ℕ → Instr
jump to = record { op = Op.goto to; dst = no_value; src0 = no_value; src1 = no_value }

abbrev branch_on : ℕ → ℕ → ℕ → Instr
branch_on k t f = record { op = Op.branch t f; dst = no_value; src0 = v k; src1 = no_value }

-- `v0 = 7; do v1 = v0 + v0; while (v1); return v0;`
abbrev loop_entry : Block
loop_entry = record { id = 0; instrs = const_to 0 ∷ jump 1 ∷ [] }

abbrev loop_rest : List Block
loop_rest =
    record { id = 1; instrs = add_to 1 0 0 ∷ branch_on 1 1 2 ∷ [] }
    ∷ record { id = 2; instrs = ret_of 0 ∷ [] }
    ∷ []

abbrev loop_func : Function
loop_func = record {
  name = [];
  ret_type = IrType.i16;
  params = [];
  next_vreg = 2;
  next_block_id = 3;
  next_slot_id = 0;
  slots = [];
  blocks = loop_entry ∷ loop_rest;
}

loop_targets : All (λ b. AreSuccsBelow 3 (some b)) loop_func.blocks
unfolding block_get_succs
loop_targets = (λ x h. ground arith, (λ x h. ground arith, (λ x h. ground arith, tt)))

loop_registers : All (λ (b : Block). AreBelow 2 b.instrs) loop_func.blocks
unfolding instr_get_uses instr_get_def
loop_registers = (
  (λ k h. ground arith, λ k h. ground arith, (λ k h. ground arith, λ k h. ground arith, tt)),
  (
    (λ k h. ground arith, λ k h. ground arith, (λ k h. ground arith, λ k h. ground arith, tt)),
    ((λ k h. ground arith, λ k h. ground arith, tt), tt),
  ),
)

loop-IsWellFormed : IsWellFormed loop_func
loop-IsWellFormed = record {
  room = omega arith;
  ids = (omega arith, (omega arith, (omega arith, tt)));
  targets = loop_targets;
  registers = loop_registers;
}

ir_liveness_compute-Returns_example :
    Returns
      (ir_liveness_compute loop_func)
      λ r. (liv : IrLiveness) × (r ≡ some liv) × (c : ℕ) × (2 ≤ c) × IsExact c loop_func 0 liv
ir_liveness_compute-Returns_example =
    ir_liveness_compute-Returns loop_func loop_entry loop_rest refl loop-IsWellFormed

abbrev loop_map : List (Option Block)
loop_map =
    some loop_entry
    ∷ some (record { id = 1; instrs = add_to 1 0 0 ∷ branch_on 1 1 2 ∷ [] })
    ∷ some (record { id = 2; instrs = ret_of 0 ∷ [] })
    ∷ []

build_cfg-AreEdges_example : AreEdges 3 loop_map (build_cfg 3 loop_map)
build_cfg-AreEdges_example = build_cfg-AreEdges 3 loop_map refl loop_targets

abbrev loop_cfg : List CfgNode
loop_cfg =
    record { succ_ids = 1 ∷ []; pred_ids = [] }
    ∷ record { succ_ids = 1 ∷ 2 ∷ []; pred_ids = 0 ∷ 1 ∷ [] }
    ∷ record { succ_ids = []; pred_ids = 1 ∷ [] }
    ∷ []

rpo_of-IsOrder_example : IsOrder 3 loop_cfg 0 (rpo_of 3 loop_cfg 0)
rpo_of-IsOrder_example = rpo_of-IsOrder 3 loop_cfg 0 (omega arith)

-- `use` and `def` of the three blocks.
abbrev loop_sets : List UseDef
loop_sets =
    record { use_set = of_mask 0; def_set = of_mask 1 }
    ∷ record { use_set = of_mask 1; def_set = of_mask 2 }
    ∷ record { use_set = of_mask 1; def_set = of_mask 0 }
    ∷ []

abbrev loop_env : Env
loop_env = record { ncap = 2; by_id = loop_map; cfg = build_cfg 3 loop_map; use_defs = loop_sets }

loop_sets-AreSized : All (λ (ud : UseDef). IsSized 64 ud.use_set × IsSized 64 ud.def_set) loop_sets
loop_sets-AreSized =
    let sized = λ (m : ℕ) (lt : m < 2 ^ 64). of_mask-IsSized m lt in
    (
      (sized 0 (omega arith), sized 1 (omega arith)),
      (
        (sized 1 (omega arith), sized 2 (omega arith)),
        ((sized 1 (omega arith), sized 0 (omega arith)), tt),
      ),
    )

fresh-IsSized : IsSized 64 (init 2)
unfolding init
fresh-IsSized = of_mask-IsSized 0 (omega arith)

loop_env-IsEnv : IsEnv 64 3 loop_env
loop_env-IsEnv =
    let edges = build_cfg-AreEdges 3 loop_map refl loop_targets in
    let sized = λ (id : ℕ) (lt : id < 3).
      All-get_or_lt (λ (ud : UseDef). IsSized 64 ud.use_set × IsSized 64 ud.def_set) loop_sets id
        no_use_def loop_sets-AreSized lt in
    record {
      scratch = fresh-IsSized;
      uses = λ id lt. (sized id lt).0;
      defs = λ id lt. (sized id lt).1;
      succs_inside = succs-inside edges loop_targets;
      preds_inside = preds-inside edges refl;
      mutual_edges = λ id p lt. preds-eq_succs edges id p;
    }

has-below : {c : ℕ} (s : VregSet) (k : ℕ) → IsSized c s → has s k ≡ true → k < c
has-below {c} s k z m = elim (Bool-cases (ltb k c)) [
  | inl inside ↦ ground arith
  | inr outside ↦ let absent = has-out s k z (ground arith) in absurd cc
]

below-IsClosed : IsClosed 3 loop_env (λ id k. k < 64)
below-IsClosed = record {
  uses = λ id k lt m. has-below (use_def_at loop_env id).use_set k (loop_env-IsEnv.uses id lt) m;
  edges = λ id to k lt edge d live. live;
}

solve-Returns_example : Returns (solve loop_env 3 (0 ∷ 1 ∷ 2 ∷ [])) λ t.
    ((id : ℕ)
      → id < 3
      → elem id (0 ∷ 1 ∷ 2 ∷ []) ≡ true
      → is_present loop_env id ≡ true
      → IsSolved loop_env t id)
    × ((id k : ℕ) → id < 3 → mem t.live_in id k ≡ true → k < 64)
    × AreSets 64 3 t.live_in
    × AreSets 64 3 t.live_out
solve-Returns_example =
    solve-Returns loop_env loop_env-IsEnv (0 ∷ 1 ∷ 2 ∷ []) (λ id k. k < 64) below-IsClosed
      (λ x m. ground arith) (refl, (refl, (refl, tt)))
