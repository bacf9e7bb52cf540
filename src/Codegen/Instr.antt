-- ===== src/Codegen/Instr.antt =====
-- `emit_instr` of CodeGen/codegen.c, by opcode. The result is the lines and the next value of
-- `g_cmp_label`; it is `none` where the code would print the NULL name of a missing destination.
use compilador.Prelude.{
  ℕ, zero, suc, ◌+◌, ◌%◌, Bool, true, false, List, [], ◌∷◌, ◌++◌, Option, none, some, ltb,
  if◌then◌else◌, u32_mod,
}
use compilador.Prelude.Int.{ℤ, pos, negsuc}
use compilador.Ir.Types.{IrType, Value}
use compilador.Ir.Instr.{Instr, Function}
use compilador.Regalloc.Build.{Regalloc}
use compilador.Codegen.Asm.{Asm, AluOp, LabelKind, always, beq, r0, fp, to_int, neg_ℤ, not_ℤ}
use compilador.Codegen.Registers.{vreg2phys, pick_scratch3, emit_load_imm, materialize_operand}
use compilador.Codegen.Emit.{
  emit_addi_imm, emit_binop_rr, emit_binop_rr_nc, move_unless_same, label_in,
}
use compilador.Codegen.Frame.{slot_fp_offset}

-- Both operands, the second in a scratch that is not the first; `avoid` is kept free for both.
unfoldable pub operands : Regalloc → ℕ → Option ℕ → Instr → (ℕ × ℕ) × List Asm
unfolding materialize_operand pick_scratch3
operands ra rd avoid ins =
    let (a, first) = materialize_operand ins.src0 ra (pick_scratch3 (some rd) avoid none) in
    let (b, second) = materialize_operand ins.src1 ra (pick_scratch3 (some rd) avoid (some a)) in
    ((a, b), first ++ second)

abbrev pub with_operands : Regalloc → ℕ → Option ℕ → Instr → (ℕ → ℕ → List Asm) → List Asm
with_operands ra rd avoid ins emit =
    let (names, lines) = operands ra rd avoid ins in lines ++ emit names.0 names.1

-- `COPY`, `TRUNC` and `BITCAST`
unfoldable pub emit_copy : Regalloc → ℕ → Value → List Asm
unfolding materialize_operand
emit_copy ra rd value =
    let (src, lines) = materialize_operand value ra rd in lines ++ move_unless_same rd src

-- The operand in `rd`, by way of a scratch.
unfoldable pub load_into : Regalloc → ℕ → Value → List Asm
unfolding materialize_operand pick_scratch3
load_into ra rd value =
    let (src, lines) = materialize_operand value ra (pick_scratch3 (some rd) none none) in
    lines ++ move_unless_same rd src

-- A register and a constant, in this order.
abbrev pub register_and_imm : Value → Value → Option (ℕ × ℤ)
register_and_imm (Value.vreg v _) (Value.imm k _) = some (v, k)
register_and_imm _ _ = none

-- `a` where it is there, else `b`.
abbrev first_some : Option (ℕ × ℤ) → Option (ℕ × ℤ) → Option (ℕ × ℤ)
first_some (some a) b = some a
first_some none b = b

unfoldable pub emit_add : Regalloc → ℕ → Instr → List Asm
unfolding operands
emit_add ra rd ins =
    elim (first_some (register_and_imm ins.src0 ins.src1) (register_and_imm ins.src1 ins.src0)) [
      | some vk ↦ emit_addi_imm rd (vreg2phys ra vk.0) (to_int vk.1)
      | none ↦ with_operands ra rd none ins (emit_binop_rr AluOp.add rd)
    ]

unfoldable pub emit_sub : Regalloc → ℕ → Instr → List Asm
unfolding operands
emit_sub ra rd ins = elim (register_and_imm ins.src0 ins.src1) [
  | some vk ↦ emit_addi_imm rd (vreg2phys ra vk.0) (neg_ℤ (to_int vk.1))
  | none ↦ with_operands ra rd none ins (emit_binop_rr_nc AluOp.sub rd)
]

unfoldable pub emit_neg : Regalloc → ℕ → Value → List Asm
unfolding load_into
emit_neg ra rd (Value.imm k type) = emit_load_imm rd (neg_ℤ k)
emit_neg ra rd value = load_into ra rd value ++ Asm.neg rd ∷ []

unfoldable pub emit_not : Regalloc → ℕ → Value → List Asm
unfolding load_into
emit_not ra rd (Value.imm k type) = emit_load_imm rd (not_ℤ k)
emit_not ra rd value = load_into ra rd value ++ Asm.complement rd ∷ []

abbrev pub shift_left : ℕ → ℕ → List Asm
shift_left zero rd = []
shift_left (suc n) rd = Asm.sll rd ∷ shift_left n rd

-- The number of rounds of `for (i = 0; i < n && i < 16; i++)`.
abbrev pub shift_count : ℤ → ℕ
shift_count (pos n) = if ltb n 16 then n else 16
shift_count (negsuc n) = 0

-- The loop that a variable shift prints, after its operand is in `rd`.
abbrev pub shift_loop : ℕ → ℕ → ℕ → List ℕ → ℕ → List Asm
shift_loop rd src1 cnt name lbl =
    let done = label_in LabelKind.shl_done name lbl in
    Asm.mov cnt src1
    ∷ Asm.cmp cnt r0
    ∷ Asm.branch_to beq done
    ∷ Asm.at_label (label_in LabelKind.shl_loop name lbl)
    ∷ Asm.sll rd
    ∷ Asm.addi cnt cnt (negsuc 0)
    ∷ Asm.cmp cnt r0
    ∷ Asm.branch_to beq done
    ∷ Asm.branch_to always (label_in LabelKind.shl_loop name lbl)
    ∷ Asm.at_label done
    ∷ []

-- `SHL`; only the loop takes a label.
unfoldable pub emit_shl : Regalloc → ℕ → Instr → List ℕ → ℕ → List Asm × ℕ
unfolding materialize_operand pick_scratch3
emit_shl ra rd ins name lbl =
    let (src0, first) = materialize_operand ins.src0 ra (pick_scratch3 (some rd) none none) in
    elim ins.src1 [
      | Value.imm n type ↦
          (first ++ (move_unless_same rd src0 ++ shift_left (shift_count n) rd), lbl)
      | _ ↦
          let (src1, second) =
            materialize_operand ins.src1 ra (pick_scratch3 (some rd) (some src0) none) in
          let cnt = pick_scratch3 (some rd) (some src0) (some src1) in
          (
            first ++ (move_unless_same rd src0 ++ (second ++ shift_loop rd src1 cnt name lbl)),
            (lbl + 1) % u32_mod,
          )
    ]

abbrev pub is_i8 : IrType → Bool
is_i8 IrType.i8 = true
is_i8 _ = false

-- The type of a value; `IR_TYPE_VOID` where the code gives none.
abbrev pub type_of_value : Value → IrType
type_of_value (Value.vreg v type) = type
type_of_value (Value.slot s type) = type
type_of_value (Value.global name type) = type
type_of_value (Value.imm k type) = type
type_of_value (Value.label b) = IrType.void
type_of_value Value.no_value = IrType.void

unfoldable pub emit_addr_of : Function → Regalloc → ℕ → Value → List Asm
emit_addr_of func ra rd value = elim value [
  | Value.slot s type ↦ emit_addi_imm rd fp (slot_fp_offset s func ra)
  | Value.global name type ↦ Asm.li_symbol rd name ∷ []
  | _ ↦ []
]

unfoldable pub emit_load : Regalloc → ℕ → Instr → List Asm
unfolding materialize_operand pick_scratch3
emit_load ra rd ins =
    let (ptr, lines) = materialize_operand ins.src0 ra (pick_scratch3 (some rd) none none) in
    lines
    ++ (if is_i8 (type_of_value ins.dst) then Asm.lb rd ptr (pos 0) else Asm.lw rd ptr (pos 0)) ∷ []

unfoldable pub emit_store : Regalloc → Instr → List Asm
unfolding materialize_operand pick_scratch3
emit_store ra ins =
    let (ptr, first) = materialize_operand ins.src0 ra (pick_scratch3 none none none) in
    let (val, second) = materialize_operand ins.src1 ra (pick_scratch3 (some ptr) none none) in
    first
    ++ (second
        ++ (if is_i8 (type_of_value ins.src1)
            then Asm.sb val ptr (pos 0)
            else Asm.sw val ptr (pos 0))
          ∷ [])
