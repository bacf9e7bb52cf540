-- ===== src/Spill/Rewrite.antt =====
-- Phase B, and `spill_rewrite` as a whole.
use compilador.Prelude.{ℕ, List, [], ◌∷◌, Option, none, some, if◌then◌else◌, ◌==◌, length}
use compilador.Ir.Types.{Value, vreg, is_vreg}
use compilador.Ir.Instr.{Op, Instr, Block, Function}
use compilador.Interference.Matrix.{Ifg}
use compilador.Regalloc.Build.{Regalloc}
use compilador.Spill.Entries.{SpillEntry, collect}
use compilador.Spill.Emit.{Emit, list_push, emit_reload, emit_store_spill}

-- One operand, which a reload replaces where it is the register of the entry.
unfoldable pub reload_value : SpillEntry → Emit → Value → Value × Emit
reload_value e st value =
    let (r, next) = emit_reload st e.slot_id e.vtype in
    if is_vreg e.vreg_id value then (vreg r e.vtype, next) else (value, st)

unfoldable pub reload_args : SpillEntry → Emit → List Value → List Value × Emit
unfolding reload_value
reload_args e st [] = ([], st)
reload_args e st (arg ∷ args) =
    let (arg', st_a) = reload_value e st arg in
    let (args', st_b) = reload_args e st_a args in (arg' ∷ args', st_b)

unfoldable pub reload_op : SpillEntry → Emit → Op → Op × Emit
unfolding reload_args
reload_op e st (Op.call callee args is_void_call) =
    let (args', next) = reload_args e st args in (Op.call callee args' is_void_call, next)
reload_op e st op = (op, st)

-- The body of the loop over the entries.
unfoldable pub use_entry : SpillEntry → Emit → Instr → Instr × Emit
unfolding reload_value reload_op
use_entry e st i =
    let (src0, st_0) = reload_value e st i.src0 in
    let (src1, st_1) = reload_value e st_0 i.src1 in
    let (op, st_op) = reload_op e st_1 i.op in
    (record { op = op; dst = i.dst; src0 = src0; src1 = src1 }, st_op)

unfoldable pub use_pass : List SpillEntry → Emit → Instr → Instr × Emit
unfolding use_entry
use_pass [] st i = (i, st)
use_pass (e ∷ es) st i = let (i', next) = use_entry e st i in use_pass es next i'

-- The first entry of the register that is defined, and no other.
unfoldable pub def_pass : List SpillEntry → Emit → Value → Emit
def_pass [] st dst = st
def_pass (e ∷ es) st dst =
    if is_vreg e.vreg_id dst
    then emit_store_spill st e.slot_id e.vreg_id e.vtype
    else def_pass es st dst

unfoldable pub rewrite_instr : List SpillEntry → Emit → Instr → Emit
unfolding use_pass def_pass
rewrite_instr es st i = let (i', st_u) = use_pass es st i in def_pass es (list_push st_u i') i'.dst

unfoldable pub rewrite_instrs : List SpillEntry → Emit → List Instr → Emit
unfolding rewrite_instr
rewrite_instrs es st [] = st
rewrite_instrs es st (i ∷ is) = rewrite_instrs es (rewrite_instr es st i) is

unfoldable pub rewrite_blocks : List SpillEntry → Function → List Block → List Block × Function
unfolding rewrite_instrs
rewrite_blocks es func [] = ([], func)
rewrite_blocks es func (b ∷ bs) =
    let st = rewrite_instrs es (record { func = func; out = [] }) b.instrs in
    let (rest, last) = rewrite_blocks es st.func bs in (record b { instrs = st.out } ∷ rest, last)

-- `decimal` prints a number for `%u`, and `sort` is `qsort` with `cmp_cost`. The inner `none` is NULL;
-- the outer one says that the entries are not as many as `n_spills`, the size of their array.
module _ (decimal : ℕ → List ℕ) (sort : List SpillEntry → List SpillEntry) where
  unfoldable pub spill_all : Function → Regalloc → Ifg → List SpillEntry × Function
  unfolding rewrite_blocks
  spill_all func ra g =
      let (found, with_slots) = collect decimal func ra g 0 ra.n_vregs in
      let entries = sort found in
      let (blocks, last) = rewrite_blocks entries with_slots func.blocks in
      (entries, record last { blocks = blocks })

  unfoldable pub spill_rewrite :
      Function → Regalloc → Ifg → Option (Option (List SpillEntry) × Function)
  unfolding spill_all
  spill_rewrite func ra g =
      let (entries, next) = spill_all func ra g in
      if ra.n_spills == 0
      then some (none, func)
      else if length entries == ra.n_spills
      then some (some entries, next)
      else none
