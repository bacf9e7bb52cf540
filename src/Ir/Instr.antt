-- ===== src/Ir/Instr.antt =====
-- `ir_opcode_t` with the union `as`, instructions, blocks and functions.
use compilador.Prelude.{ℕ, Bool, List}
use compilador.Prelude.Int.{ℤ}
use compilador.Ir.Types.{IrType, Value}

-- `call` carries the callee, the arguments and `is_void_call`; `switch` the default target and the
-- value and target of each case.
pub data Op : Type 0 where
  invalid const copy add sub mul divs divu mods modu and or xor shl shru shrs neg bit_not : Op
  eq neq lts les gts ges ltu leu gtu geu : Op
  addr_of load store : Op
  gep : ℤ → Op
  zext sext trunc bitcast : Op
  goto : ℕ → Op
  branch : ℕ → ℕ → Op
  switch : ℕ → List (ℤ × ℕ) → Op
  ret : Op
  call : List ℕ → List Value → Bool → Op

pub record Instr : Type 0 where
  pub op : Op
  pub dst : Value
  pub src0 : Value
  pub src1 : Value

-- `tail` is the last of `instrs`.
pub record Block : Type 0 where
  pub id : ℕ
  pub instrs : List Instr

pub record SlotEntry : Type 0 where
  pub name : List ℕ
  pub slot_id : ℕ
  pub type : IrType

-- `params` are the names and types; `blocks` is the list from `entry`.
pub record Function : Type 0 where
  pub name : List ℕ
  pub ret_type : IrType
  pub params : List (List ℕ × IrType)
  pub next_vreg : ℕ
  pub next_block_id : ℕ
  pub next_slot_id : ℕ
  pub slots : List SlotEntry
  pub blocks : List Block
