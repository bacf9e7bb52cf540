-- ===== src/Interference/Build.antt =====
-- `ifg_build`: one pass over the instructions and their `live_after` sets.
pub mod Edges
use compilador.Prelude.{ℕ, List, [], ◌∷◌, ◌++◌, Option, none, some, ◌==◌, if◌then◌else◌, u32_max}
use compilador.VregSet.{VregSet, members}
use compilador.Ir.Types.{Value, vreg_of}
use compilador.Ir.Instr.{Op, Instr, Function}
use compilador.Liveness.Result.{IrLiveness, instrs_of}
use compilador.Interference.Matrix.{Ifg, Move, empty_graph}
use compilador.Interference.Graph.{add_edge}

op_def : Op → Value → Option ℕ
op_def Op.store dst = none
op_def (Op.goto t) dst = none
op_def (Op.branch t f) dst = none
op_def (Op.switch d cases) dst = none
op_def Op.ret dst = none
op_def (Op.call callee args is_void_call) dst = if is_void_call then none else vreg_of dst
op_def _ dst = vreg_of dst

-- The copy of the helper in interference.c.
unfoldable pub instr_get_def : Instr → Option ℕ
unfolding op_def
instr_get_def i = op_def i.op i.dst

both_vregs : Option ℕ → Option ℕ → Option (ℕ × ℕ)
both_vregs (some d) (some s) = some (d, s)
both_vregs (some d) none = none
both_vregs none s = none

op_is_move : Op → Value → Value → Option (ℕ × ℕ)
unfolding both_vregs
op_is_move Op.copy dst src0 = both_vregs (vreg_of dst) (vreg_of src0)
op_is_move _ dst src0 = none

-- The destination and the source, where the instruction is a copy between registers.
unfoldable pub instr_is_move : Instr → Option (ℕ × ℕ)
unfolding op_is_move
instr_is_move i = op_is_move i.op i.dst i.src0

unfoldable pub record_move : Ifg → ℕ → ℕ → Ifg
record_move g dst src = record g { moves = g.moves ++ record { dst = dst; src = src } ∷ [] }

-- The body of the inner loop for a live register `x`.
offer_edge : ℕ → ℕ → ℕ → Ifg → Ifg
offer_edge d move_src x g = if x == d then g else if x == move_src then g else (add_edge g d x).0

-- The inner loop: an edge from `d` to each live register but `d` and `move_src`.
add_edges : ℕ → ℕ → List ℕ → Ifg → Ifg
unfolding offer_edge
add_edges d move_src [] g = g
add_edges d move_src (x ∷ xs) g = add_edges d move_src xs (offer_edge d move_src x g)

record_if_move : Option (ℕ × ℕ) → Ifg → Ifg
unfolding record_move
record_if_move none g = g
record_if_move (some (dst, src)) g = record_move g dst src

-- `move_src` is `(unsigned)-1` until a move sets it.
abbrev pub move_source : Option (ℕ × ℕ) → ℕ
move_source none = u32_max
move_source (some (dst, src)) = src

def_edges : Option ℕ → Instr → VregSet → Ifg → Ifg
unfolding add_edges record_if_move
def_edges none ins la g = g
def_edges (some d) ins la g =
    let mv = instr_is_move ins in add_edges d (move_source mv) (members la) (record_if_move mv g)

-- One instruction.
unfoldable pub build_step : Ifg → Instr → VregSet → Ifg
unfolding def_edges
build_step g ins la = def_edges (instr_get_def ins) ins la g

unfoldable pub build_loop : Ifg → List Instr → List VregSet → Ifg
unfolding build_step
build_loop g [] las = g
build_loop g (ins ∷ rest) [] = g
build_loop g (ins ∷ rest) (la ∷ las) = build_loop (build_step g ins la) rest las

-- The sets stand in the order of the instructions.
unfoldable pub ifg_build : Function → IrLiveness → Ifg
unfolding build_loop
ifg_build func liv = build_loop (empty_graph liv.n_vregs) (instrs_of func.blocks) liv.live_after
