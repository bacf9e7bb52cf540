-- ===== src/Codegen/Opcodes.antt =====
-- The rest of `emit_instr`: element addresses, casts, jumps and the dispatch on the opcode.
use compilador.Prelude.{
  ℕ, ◌+◌, ◌-◌, ◌%◌, Bool, true, false, List, [], ◌∷◌, ◌++◌, Option, none, some, ltb, leb, ◌==◌,
  if◌then◌else◌, u32_mod,
}
use compilador.Prelude.Int.{ℤ, pos, negsuc}
use compilador.Ir.Types.{IrType, Value}
use compilador.Ir.Instr.{Op, Instr, Function}
use compilador.Regalloc.Build.{Regalloc}
use compilador.Codegen.Asm.{Asm, AluOp, Label, LabelKind, always, beq, r0, a0, a1, t0}
use compilador.Codegen.Registers.{vreg2phys, pick_scratch3, emit_load_imm, materialize_operand}
use compilador.Codegen.Emit.{
  emit_binop_rr, emit_binop_rr_nc, emit_or_rr, emit_comparison, move_unless_same, label_in,
}
use compilador.Codegen.Frame.{emit_epilogue}
use compilador.Codegen.Call.{emit_call}
use compilador.Codegen.Instr.{
  operands, with_operands, emit_copy, load_into, emit_add, emit_sub, emit_neg, emit_not, shift_left,
  emit_shl, is_i8, type_of_value, emit_addr_of, emit_load, emit_store,
}

-- `__mul`
abbrev mul_name : List ℕ
mul_name = 95 ∷ 95 ∷ 109 ∷ 117 ∷ 108 ∷ []

-- `rd = base + idx * width` by a call of the helper.
abbrev pub gep_by_call : ℕ → ℕ → ℕ → ℤ → List Asm
gep_by_call rd base idx width =
    Asm.push base
    ∷ ((if idx == a1
          then Asm.mov a0 a1 ∷ emit_load_imm a1 width
          else move_unless_same a0 idx ++ emit_load_imm a1 width)
        ++ (Asm.call mul_name ∷ Asm.pop t0 ∷ Asm.alu AluOp.add a0 t0 ∷ move_unless_same rd a0))

abbrev pub gep_shifted : ℕ → ℕ → ℕ → ℕ → List Asm
gep_shifted shifts rd base idx =
    move_unless_same rd idx ++ (shift_left shifts rd ++ Asm.alu AluOp.add rd base ∷ [])

abbrev pub gep_lines : ℕ → ℤ → ℕ → ℕ → List Asm
gep_lines rd (pos w) base idx =
    if w == 1
    then emit_binop_rr AluOp.add rd base idx
    else if w == 2
    then gep_shifted 1 rd base idx
    else if w == 4
    then gep_shifted 2 rd base idx
    else gep_by_call rd base idx (pos w)
gep_lines rd (negsuc w) base idx = gep_by_call rd base idx (negsuc w)

abbrev pub is_i1 : IrType → Bool
is_i1 IrType.i1 = true
is_i1 _ = false

-- `v & (m - 1)` for a power `m` of 2
abbrev pub low_bits : ℕ → ℤ → ℕ
low_bits m (pos n) = n % m
low_bits m (negsuc n) = m - 1 - n % m

abbrev pub zext_constant : IrType → ℤ → ℤ
zext_constant type v =
    if is_i1 type then pos (low_bits 2 v) else if is_i8 type then pos (low_bits 256 v) else v

unfoldable pub emit_zext : Regalloc → ℕ → Value → List Asm
unfolding load_into pick_scratch3
emit_zext ra rd (Value.imm k type) = emit_load_imm rd (zext_constant type k)
emit_zext ra rd value =
    let scratch = pick_scratch3 (some rd) none none in
    load_into ra rd value
    ++ (if is_i1 (type_of_value value)
        then Asm.andi rd (pos 1) ∷ []
        else if is_i8 (type_of_value value)
        then Asm.imm_prefix 15 ∷ Asm.addi scratch r0 (pos 15) ∷ Asm.alu AluOp.and rd scratch ∷ []
        else [])

-- A byte with its sign.
abbrev pub signed_byte : ℕ → ℤ
signed_byte b = if ltb b 128 then pos b else negsuc (255 - b)

abbrev pub sext_constant : IrType → ℤ → ℤ
sext_constant type v =
    if is_i1 type
    then if low_bits 2 v == 1 then negsuc 0 else pos 0
    else if is_i8 type
    then signed_byte (low_bits 256 v)
    else v

unfoldable pub emit_sext : Regalloc → ℕ → Value → List Asm
unfolding load_into pick_scratch3
emit_sext ra rd (Value.imm k type) = emit_load_imm rd (sext_constant type k)
emit_sext ra rd value =
    let cnt = pick_scratch3 (some rd) none none in
    load_into ra rd value
    ++ (if is_i8 (type_of_value value)
        then Asm.addi cnt r0 (pos 8) ∷ (shift_left 8 rd ++ Asm.alu AluOp.sra rd cnt ∷ [])
        else if is_i1 (type_of_value value)
        then Asm.neg rd ∷ []
        else [])

abbrev pub block_label : Function → ℕ → Label
block_label func id = label_in LabelKind.block func.name id

unfoldable pub emit_branch : Function → Regalloc → Value → ℕ → ℕ → List Asm
unfolding materialize_operand pick_scratch3
emit_branch func ra value target_true target_false =
    let (pred, lines) = materialize_operand value ra (pick_scratch3 none none none) in
    lines
    ++ (Asm.cmp pred r0
        ∷ Asm.branch_to beq (block_label func target_false)
        ∷ Asm.branch_to always (block_label func target_true)
        ∷ [])

-- `cv >= 0 && cv <= 15`
abbrev pub fits_rcmpi : ℤ → Bool
fits_rcmpi (pos n) = leb n 15
fits_rcmpi (negsuc n) = false

unfoldable pub emit_cases : Function → ℕ → ℕ → List (ℤ × ℕ) → List Asm
emit_cases func val scratch [] = []
emit_cases func val scratch ((cv, target) ∷ cases) =
    (if fits_rcmpi cv
      then Asm.rcmpi val cv ∷ []
      else emit_load_imm scratch cv ++ Asm.cmp val scratch ∷ [])
    ++ (Asm.branch_to beq (block_label func target) ∷ emit_cases func val scratch cases)

unfoldable pub emit_switch : Function → Regalloc → Value → ℕ → List (ℤ × ℕ) → List Asm
unfolding materialize_operand pick_scratch3
emit_switch func ra value default cases =
    let (val, lines) = materialize_operand value ra (pick_scratch3 none none none) in
    lines
    ++ (emit_cases func val (pick_scratch3 (some val) none none) cases
        ++ Asm.branch_to always (block_label func default) ∷ [])

unfoldable pub emit_ret : Function → Regalloc → Value → List Asm
emit_ret func ra value = elim value [
  | Value.vreg v type ↦ move_unless_same a0 (vreg2phys ra v) ++ emit_epilogue func ra
  | Value.imm k type ↦ emit_load_imm a0 k ++ emit_epilogue func ra
  | Value.global name type ↦ Asm.li_symbol a0 name ∷ emit_epilogue func ra
  | _ ↦ emit_epilogue func ra
]

-- The target of a goto is a label operand, or the one that it carries.
abbrev pub goto_target : Value → ℕ → ℕ
goto_target (Value.label b) target = b
goto_target _ target = target

-- The payload of an immediate.
abbrev pub imm_of : Value → ℤ
imm_of (Value.imm k type) = k
imm_of _ = pos 0

-- The opcodes that print the name of the destination.
unfoldable pub emit_value : Function → Regalloc → ℕ → Instr → ℕ → List Asm × ℕ
unfolding operands emit_copy emit_add emit_sub emit_neg emit_not emit_shl emit_zext emit_sext
emit_value func ra rd ins lbl = elim ins.op [
  | Op.const ↦ (emit_load_imm rd (imm_of ins.src0), lbl)
  | Op.copy ↦ (emit_copy ra rd ins.src0, lbl)
  | Op.add ↦ (emit_add ra rd ins, lbl)
  | Op.sub ↦ (emit_sub ra rd ins, lbl)
  | Op.and ↦ (with_operands ra rd none ins (emit_binop_rr AluOp.and rd), lbl)
  | Op.or ↦ (with_operands ra rd (some t0) ins (emit_or_rr rd), lbl)
  | Op.xor ↦ (with_operands ra rd none ins (emit_binop_rr AluOp.xor rd), lbl)
  | Op.neg ↦ (emit_neg ra rd ins.src0, lbl)
  | Op.bit_not ↦ (emit_not ra rd ins.src0, lbl)
  | Op.shl ↦ emit_shl ra rd ins func.name lbl
  | Op.shru ↦ (with_operands ra rd none ins (emit_binop_rr_nc AluOp.srl rd), lbl)
  | Op.shrs ↦ (with_operands ra rd none ins (emit_binop_rr_nc AluOp.sra rd), lbl)
  | Op.addr_of ↦ (emit_addr_of func ra rd ins.src0, lbl)
  | Op.load ↦ (emit_load ra rd ins, lbl)
  | Op.gep width ↦ (with_operands ra rd none ins (gep_lines rd width), lbl)
  | Op.zext ↦ (emit_zext ra rd ins.src0, lbl)
  | Op.sext ↦ (emit_sext ra rd ins.src0, lbl)
  | Op.trunc ↦ (emit_copy ra rd ins.src0, lbl)
  | Op.bitcast ↦ (emit_copy ra rd ins.src0, lbl)
  | op ↦ (
    with_operands ra rd none ins (λ a b. emit_comparison op rd a b func.name lbl),
    (lbl + 1) % u32_mod,
  )
]

abbrev pub value_or_none : Function → Regalloc → Instr → ℕ → Option (List Asm × ℕ)
value_or_none func ra ins lbl = elim ins.dst [
  | Value.vreg v type ↦ some (emit_value func ra (vreg2phys ra v) ins lbl)
  | _ ↦ none
]

unfoldable pub emit_instr : Instr → Function → Regalloc → ℕ → Option (List Asm × ℕ)
unfolding emit_value emit_store emit_branch emit_switch emit_ret emit_call
emit_instr ins func ra lbl = elim ins.op [
  | Op.invalid ↦ some ([], lbl)
  | Op.mul ↦ some ([], lbl)
  | Op.divs ↦ some ([], lbl)
  | Op.divu ↦ some ([], lbl)
  | Op.mods ↦ some ([], lbl)
  | Op.modu ↦ some ([], lbl)
  | Op.store ↦ some (emit_store ra ins, lbl)
  | Op.goto target ↦
      some (Asm.branch_to always (block_label func (goto_target ins.src0 target)) ∷ [], lbl)
  | Op.branch target_true target_false ↦
      some (emit_branch func ra ins.src0 target_true target_false, lbl)
  | Op.switch default cases ↦ some (emit_switch func ra ins.src0 default cases, lbl)
  | Op.ret ↦ some (emit_ret func ra ins.src0, lbl)
  | Op.call callee args is_void ↦ some (emit_call ra ins.dst callee args is_void, lbl)
  | _ ↦ value_or_none func ra ins lbl
]
