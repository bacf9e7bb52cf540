-- ===== src/Codegen/Sums.antt =====
-- The two-operand instructions of the IR, from the instruction to the register.
use compilador.Prelude.{
  ℕ, zero, suc, ◌+◌, ◌-◌, ◌%◌, ◌<◌, ◌≡◌, refl, ap, ◌∙◌, false, [], ◌∷◌, ltb, ◌==◌, inl, inr, arith,
  Bool-cases,
}
use compilador.Prelude.Int.{ℤ, pos, negsuc}
use compilador.Ir.Types.{IrType, Value}
use compilador.Ir.Instr.{Op, Instr, Function}
use compilador.Regalloc.Build.{Regalloc}
use compilador.Codegen.Asm.{AluOp, t3, word16, to_int, neg_ℤ}
use compilador.Codegen.Registers.{vreg2phys, materialize_operand}
use compilador.Codegen.Machine.{read_reg, compute}
use compilador.Codegen.Instr.{operands, emit_add, emit_sub}
use compilador.Codegen.Opcodes.{emit_value}
use compilador.Codegen.Puts.{Puts, Puts-eq, AreWords, weaken, emit_addi_imm-Puts}
use compilador.Codegen.Arith.{emit_binop_rr-Puts, emit_binop_rr_nc-Puts}

-- `%dst = %v op b`
abbrev pub binary : Op → Value → ℕ → IrType → Value → Instr
binary op dst v type b = record { op = op; dst = dst; src0 = Value.vreg v type; src1 = b }

-- The opcode that an operation of the machine implements.
abbrev pub opcode : AluOp → Op
opcode AluOp.add = Op.add
opcode AluOp.sub = Op.sub
opcode AluOp.and = Op.and
opcode AluOp.xor = Op.xor
opcode AluOp.srl = Op.shru
opcode AluOp.sra = Op.shrs

-- A register or a constant.
abbrev pub IsPlain : Value → Type 0
IsPlain (Value.vreg v type) = Unit
IsPlain (Value.imm k type) = Unit
IsPlain _ = ⊥

abbrev pub IsRegister : Value → Type 0
IsRegister (Value.vreg v type) = Unit
IsRegister _ = ⊥

-- The second operands: a register, or a constant where the code takes it as an immediate.
abbrev pub IsOperand : AluOp → Value → Type 0
IsOperand AluOp.add b = IsPlain b
IsOperand AluOp.sub b = IsPlain b
IsOperand AluOp.and b = IsRegister b
IsOperand AluOp.xor b = IsRegister b
IsOperand AluOp.srl b = IsRegister b
IsOperand AluOp.sra b = IsRegister b

abbrev pub operand_value : Regalloc → (ℕ → ℕ) → Value → ℕ
operand_value ra regs (Value.vreg v type) = read_reg regs (vreg2phys ra v)
operand_value ra regs (Value.imm k type) = word16 k
operand_value ra regs _ = 0

word16-to_int : (k : ℤ) → word16 (to_int k) ≡ word16 k
word16-to_int (pos n) = elim (Bool-cases (ltb (n % 4294967296) 2147483648)) [
  | inl low ↦ rw low (omega arith)
  | inr high ↦ rw high (ground arith)
]
word16-to_int (negsuc n) = elim (Bool-cases (ltb (n % 4294967296) 2147483648)) [
  | inl low ↦ rw low (omega arith)
  | inr high ↦ rw high (ground arith)
]

word16-neg : (x : ℕ) (k : ℤ) → (x + word16 (neg_ℤ k)) % 65536 ≡ (x + (65536 - word16 k)) % 65536
word16-neg x (pos zero) = omega arith
word16-neg x (pos (suc n)) = omega arith
word16-neg x (negsuc n) = omega arith

module _ (func : Function) (ra : Regalloc) (rd lbl : ℕ) (dst : Value) (v : ℕ) (type : IrType)
    (regs mem : ℕ → ℕ) (flags : ℕ × ℕ) (words : AreWords regs) (h : 0 < rd)
    (safe : (rd == t3) ≡ false) (home_safe : (vreg2phys ra v == t3) ≡ false) where
  abbrev a : ℕ
  a = read_reg regs (vreg2phys ra v)

  -- The code of an addition leaves the sum modulo 2 ^ 16 in the register of its destination.
  emit_value_add :
      (b : Value)
      → IsPlain b
      → Puts
          (emit_value func ra rd (binary Op.add dst v type b) lbl).0
          (t3 ∷ [])
          rd
          (compute AluOp.add a (operand_value ra regs b))
          regs
          mem
          flags
  unfolding emit_value emit_add operands materialize_operand compute
  emit_value_add (Value.vreg w t) plain =
      weaken regs mem flags (emit_binop_rr-Puts regs mem flags words AluOp.add rd _ _ refl h)
  emit_value_add (Value.imm k t) plain =
      Puts-eq regs mem flags (ap (λ x. (a + x) % 65536) (word16-to_int k))
        (weaken regs mem flags (emit_addi_imm-Puts regs mem flags rd (vreg2phys ra v) (to_int k) h))
  emit_value_add _ plain = absurd plain

  emit_value_sub :
      (b : Value)
      → IsPlain b
      → Puts
          (emit_value func ra rd (binary Op.sub dst v type b) lbl).0
          (t3 ∷ [])
          rd
          (compute AluOp.sub a (operand_value ra regs b))
          regs
          mem
          flags
  unfolding emit_value emit_sub operands materialize_operand compute
  emit_value_sub (Value.vreg w t) plain =
      emit_binop_rr_nc-Puts regs mem flags words AluOp.sub rd _ _ h safe home_safe
  emit_value_sub (Value.imm k t) plain =
      Puts-eq regs mem flags
        (word16-neg a (to_int k) ∙ ap (λ x. (a + (65536 - x)) % 65536) (word16-to_int k))
        (weaken regs mem flags
          (emit_addi_imm-Puts regs mem flags rd (vreg2phys ra v) (neg_ℤ (to_int k)) h))
  emit_value_sub _ plain = absurd plain

  -- The code printed for a two-operand instruction leaves in `rd` what the operation gives on the
  -- values of the operands: sum and difference modulo 2 ^ 16, and, exclusive or, and the two right
  -- shifts. It may overwrite t3 but no other register and no memory. The first operand is a register,
  -- the second a register, or for sum and difference any constant; the registers hold words, `rd`
  -- is neither r0 nor t3, and the first operand is not in t3.
  pub emit_value-Puts :
      (op : AluOp) (b : Value)
      → IsOperand op b
      → Puts
          (emit_value func ra rd (binary (opcode op) dst v type b) lbl).0
          (t3 ∷ [])
          rd
          (compute op a (operand_value ra regs b))
          regs
          mem
          flags
  unfolding emit_value operands materialize_operand
  emit_value-Puts AluOp.add b fits = emit_value_add b fits
  emit_value-Puts AluOp.sub b fits = emit_value_sub b fits
  emit_value-Puts AluOp.and (Value.vreg w t) fits =
      weaken regs mem flags (emit_binop_rr-Puts regs mem flags words AluOp.and rd _ _ refl h)
  emit_value-Puts AluOp.xor (Value.vreg w t) fits =
      weaken regs mem flags (emit_binop_rr-Puts regs mem flags words AluOp.xor rd _ _ refl h)
  emit_value-Puts AluOp.srl (Value.vreg w t) fits =
      emit_binop_rr_nc-Puts regs mem flags words AluOp.srl rd _ _ h safe home_safe
  emit_value-Puts AluOp.sra (Value.vreg w t) fits =
      emit_binop_rr_nc-Puts regs mem flags words AluOp.sra rd _ _ h safe home_safe
  emit_value-Puts AluOp.and _ fits = absurd fits
  emit_value-Puts AluOp.xor _ fits = absurd fits
  emit_value-Puts AluOp.srl _ fits = absurd fits
  emit_value-Puts AluOp.sra _ fits = absurd fits
