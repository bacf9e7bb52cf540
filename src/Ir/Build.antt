-- ===== src/Ir/Build.antt =====
-- The builders of IR/ir.c. The counters are `unsigned`.
use compilador.Prelude.{
  ℕ, ◌+◌, ◌%◌, List, [], ◌∷◌, ◌++◌, ◌==◌, if◌then◌else◌, u32_mod, u32_max, take, bytes_eq,
}
use compilador.Ir.Types.{IrType, no_value, type_size_words}
use compilador.Ir.Instr.{Op, Instr, Block, SlotEntry, Function}

abbrev pub function_new : List ℕ → IrType → Function
function_new name ret_type = record {
  name = take 127 name;
  ret_type = ret_type;
  params = [];
  next_vreg = 0;
  next_block_id = 0;
  next_slot_id = 0;
  slots = [];
  blocks = [];
}

unfoldable pub block_new : Function → Block × Function
block_new func = (
  record { id = func.next_block_id; instrs = [] },
  record func { next_block_id = (func.next_block_id + 1) % u32_mod },
)

unfoldable pub block_append : Function → Block → Function
block_append func block = record func { blocks = func.blocks ++ block ∷ [] }

abbrev pub instr_new : Op → Instr
instr_new op = record { op = op; dst = no_value; src0 = no_value; src1 = no_value }

unfoldable pub instr_push : Block → Instr → Block
instr_push block instr = record block { instrs = block.instrs ++ instr ∷ [] }

-- The fresh id and the function with its counter moved.
unfoldable pub new_vreg : Function → ℕ × Function
new_vreg func = (func.next_vreg, record func { next_vreg = (func.next_vreg + 1) % u32_mod })

-- The words that a slot reserves.
unfoldable pub slot_words : IrType → ℕ
slot_words type = let sz = type_size_words type in if sz == 0 then 1 else sz

unfoldable pub new_slot : Function → List ℕ → IrType → ℕ × Function
new_slot func name type = (
  func.next_slot_id,
  record func {
    next_slot_id = (func.next_slot_id + slot_words type % u32_mod) % u32_mod;
    slots = record { name = take 127 name; slot_id = func.next_slot_id; type = type } ∷ func.slots;
  },
)

find_entry : List SlotEntry → List ℕ → ℕ
find_entry [] name = u32_max
find_entry (e ∷ rest) name =
    if bytes_eq (take 128 e.name) (take 128 name) then e.slot_id else find_entry rest name

unfoldable pub find_slot : Function → List ℕ → ℕ
unfolding find_entry
find_slot func name = find_entry func.slots name
