-- ===== src/Spill/Entries.antt =====
-- Phase A of `spill_rewrite`: the spilled registers with their types, counts and slots.
use compilador.Prelude.{
  ℕ, zero, suc, ◌+◌, ◌%◌, List, [], ◌∷◌, ◌++◌, u32_mod, if◌then◌else◌, ◌==◌, get_or,
}
use compilador.Ir.Types.{IrType, Value, vreg, slot, global, imm, label, no_value, is_vreg}
use compilador.Ir.Instr.{Op, Instr, Function}
use compilador.Ir.Build.{new_slot}
use compilador.Interference.Matrix.{Ifg}
use compilador.Interference.Graph.{degree}
use compilador.Regalloc.Build.{Regalloc}
use compilador.Regalloc.Select.{spill_color}
use compilador.Liveness.Result.{instrs_of}

-- The `cost`, a `double`, serves the order of the entries only; that order is a parameter below.
pub record SpillEntry : Type 0 where
  pub vreg_id : ℕ
  pub slot_id : ℕ
  pub vtype : IrType
  pub use_def_count : ℕ
  pub entry_degree : ℕ

abbrev pub type_of : Value → IrType
type_of (vreg v type) = type
type_of (slot s type) = type
type_of (global name type) = type
type_of (imm k type) = type
type_of (label b) = IrType.void
type_of no_value = IrType.void

-- Over the instructions in the order of the blocks.
type_in : List Instr → ℕ → IrType
type_in [] v = IrType.i16
type_in (i ∷ is) v = if is_vreg v i.dst then type_of i.dst else type_in is v

unfoldable pub find_vreg_type : Function → ℕ → IrType
unfolding type_in
find_vreg_type func v = type_in (instrs_of func.blocks) v

-- `if (value.kind == IR_VAL_VREG && value.as.vreg == v) n++;`
count_value : ℕ → ℕ → Value → ℕ
count_value v n value = if is_vreg v value then (n + 1) % u32_mod else n

count_args : ℕ → ℕ → List Value → ℕ
unfolding count_value
count_args v n [] = n
count_args v n (arg ∷ args) = count_args v (count_value v n arg) args

abbrev pub args_of : Op → List Value
args_of (Op.call callee args is_void_call) = args
args_of _ = []

count_instr : ℕ → ℕ → Instr → ℕ
unfolding count_value count_args
count_instr v n i =
    count_args v (count_value v (count_value v (count_value v n i.dst) i.src0) i.src1)
      (args_of i.op)

count_instrs : ℕ → ℕ → List Instr → ℕ
unfolding count_instr
count_instrs v n [] = n
count_instrs v n (i ∷ is) = count_instrs v (count_instr v n i) is

unfoldable pub count_use_def : Function → ℕ → ℕ
unfolding count_instrs
count_use_def func v = count_instrs v 0 (instrs_of func.blocks)

-- `"__spill_v"`
abbrev pub slot_prefix : List ℕ
slot_prefix = 95 ∷ 95 ∷ 115 ∷ 112 ∷ 105 ∷ 108 ∷ 108 ∷ 95 ∷ 118 ∷ []

-- `decimal` prints a number for `%u`.
module _ (decimal : ℕ → List ℕ) where
  unfoldable pub new_entry : Function → Ifg → ℕ → SpillEntry × Function
  new_entry func g v =
      let vtype = find_vreg_type func v in
      let (slot_id, next) = new_slot func (slot_prefix ++ decimal v) vtype in
      (
        record {
          vreg_id = v;
          slot_id = slot_id;
          vtype = vtype;
          use_def_count = count_use_def func v;
          entry_degree = degree g v;
        },
        next,
      )

  -- The loop over the registers from `v` on, of which `left` are left.
  unfoldable pub collect : Function → Regalloc → Ifg → ℕ → ℕ → List SpillEntry × Function
  unfolding new_entry
  collect func ra g v zero = ([], func)
  collect func ra g v (suc left) =
      let skipped = collect func ra g (v + 1) left in
      let (entry, next) = new_entry func g v in
      let (entries, last) = collect next ra g (v + 1) left in
      if get_or ra.color v 0 == spill_color then (entry ∷ entries, last) else skipped
