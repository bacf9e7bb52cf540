-- ===== src/Tests/Code.antt =====
-- Runs of emitted code.
use compilador.Prelude.{
  ℕ, zero, suc, ◌+◌, ◌-◌, ◌%◌, ◌≤◌, ◌≡◌, refl, bit_or, true, List, [], ◌∷◌, arith, ◌==◌, inl, inr,
  if◌then◌else◌, All, take, drop,
}
use compilador.Prelude.Int.{pos, negsuc}
use compilador.Ir.Instr.{Op, Function}
use compilador.Regalloc.Build.{Regalloc}
use compilador.Codegen.Asm.{Asm, AluOp, Cond, LabelKind, t0, t3, sp, word16, label_eq}
use compilador.Codegen.Call.{copy_loop, new_copies, first_pending}
use compilador.Codegen.Arguments.{AreArgumentsLoaded, copy_loop-AreArgumentsLoaded}
use compilador.Codegen.Sums.{binary, emit_value-Puts}
use compilador.Codegen.Opcodes.{emit_value, gep_lines}
use compilador.Codegen.Registers.{emit_load_imm, vreg2phys}
use compilador.Codegen.Machine.{read_reg, ready, exec, sweep, compute, step}
use compilador.Codegen.Emit.{
  emit_addi_imm, emit_sp_adj, emit_binop_rr_nc, emit_or_rr, emit_comparison, label_in,
}
use compilador.Codegen.Frame.{
  slot_fp_offset, callee_used_mask, mask_from, function_is_leaf, count_slots,
}
use compilador.Codegen.Relax.{relax_loop}
use compilador.Codegen.Puts.{Puts, AreWords, emit_addi_imm-Puts}
use compilador.Codegen.Arith.{emit_binop_rr_nc-Puts}
use compilador.Codegen.Or.{emit_or_rr-Puts, emit_or_rr_loses}
use compilador.Codegen.Compare.{Decides, emit_comparison-Decides, emit_sp_adj-Puts}
use compilador.Codegen.RoundTrip.{saved_words}
use compilador.Ir.Build.{find_slot}
use compilador.Codegen.Loaded.{HasOwnSlots}
use compilador.Codegen.Kept.{NeedsFrame}
use compilador.Codegen.Closes.{IsOpened, IsClosed, emit_prologue-IsOpened, emit_epilogue-IsClosed}
use compilador.Codegen.Slots.{slot_fp_offset-below}
use compilador.Codegen.Relaxed.{IsOldLine, relax_loop-sweep}
use compilador.Ir.Types.{IrType, Value}
use compilador.Tests.{v, const_to, call_to, ret_of, sum_func}

-- Small numbers in every register, and sp at 1000.
abbrev some_regs : ℕ → ℕ
some_regs k = if k == 13 then 1000 else if k == 5 then 65535 else if k == 6 then 3 else 9

some_regs-AreWords : AreWords some_regs
some_regs-AreWords k = ground arith

abbrev no_mem : ℕ → ℕ
no_mem a = 0

abbrev no_flags : ℕ × ℕ
no_flags = (0, 0)

emit_addi_imm-Puts_example :
    Puts (emit_addi_imm 5 6 (negsuc 99)) [] 5 ((3 + 65436) % 65536) some_regs no_mem no_flags
emit_addi_imm-Puts_example =
    emit_addi_imm-Puts some_regs no_mem no_flags 5 6 (negsuc 99) (omega arith)

emit_sp_adj-Puts_example :
    Puts (emit_sp_adj (negsuc 19)) [] sp ((1000 + 65516) % 65536) some_regs no_mem no_flags
emit_sp_adj-Puts_example = emit_sp_adj-Puts no_mem no_flags (negsuc 19) some_regs (omega arith)

-- The second operand is in the destination.
emit_binop_rr_nc-Puts_example :
    Puts
      (emit_binop_rr_nc AluOp.sub 6 5 6)
      (t3 ∷ [])
      6
      (compute AluOp.sub 65535 3)
      some_regs
      no_mem
      no_flags
emit_binop_rr_nc-Puts_example =
    emit_binop_rr_nc-Puts some_regs no_mem no_flags some_regs-AreWords AluOp.sub 6 5 6 (omega arith)
      refl refl

emit_or_rr-Puts_example :
    Puts (emit_or_rr 6 5 6) (t0 ∷ t3 ∷ []) 6 (bit_or 65535 3) some_regs no_mem no_flags
emit_or_rr-Puts_example =
    emit_or_rr-Puts some_regs no_mem no_flags some_regs-AreWords 6 5 6 (omega arith) refl refl refl

emit_or_rr_loses_example : Puts (emit_or_rr 6 6 t0) (t0 ∷ []) 6 9 some_regs no_mem no_flags
emit_or_rr_loses_example =
    emit_or_rr_loses some_regs no_mem no_flags some_regs-AreWords 6 (omega arith) refl

-- -1 < 3, into a register that is an operand
emit_comparison-Decides_example :
    Decides (emit_comparison Op.lts 5 5 6 [] 0) 5 true some_regs no_mem no_flags
emit_comparison-Decides_example =
    emit_comparison-Decides some_regs no_mem no_flags some_regs-AreWords [] 0 5 (omega arith) Op.lts
      5 6

-- Four parameters, the last with a slot, two slots, a call, and s0 in use.
abbrev framed_func : Function
framed_func = record sum_func {
  params =
      (97 ∷ [], IrType.i16)
      ∷ (98 ∷ [], IrType.i16)
      ∷ (99 ∷ [], IrType.i16)
      ∷ (100 ∷ [], IrType.i16)
      ∷ [];
  next_slot_id = 2;
  slots = record { name = 100 ∷ []; slot_id = 1; type = IrType.i16 } ∷ [];
  blocks = record { id = 0; instrs = const_to 0 ∷ call_to 1 (v 0 ∷ []) ∷ ret_of 1 ∷ [] } ∷ [];
}

abbrev framed_alloc : Regalloc
framed_alloc = record { n_vregs = 2; color = 8 ∷ 1 ∷ []; n_spills = 0 }

framed_room : saved_words framed_func framed_alloc + count_slots framed_func ≤ 1000
unfolding callee_used_mask mask_from function_is_leaf
framed_room = omega arith

-- s0 is the colour of register 0.
keeps_s0 : NeedsFrame framed_func framed_alloc
keeps_s0 = inl (
  8,
  (λ e. absurd (omega (arith, e))),
  inr (inr (omega arith, omega arith, (0, omega arith, refl))),
)

abbrev framed_fits : 6 + count_slots framed_func ≤ 1000
framed_fits = omega arith

-- The slot of the fourth parameter.
fourth_slot : find_slot framed_func (100 ∷ []) ≡ 1
unfolding find_slot
fourth_slot = refl

fourth_has_slot : HasOwnSlots framed_func framed_alloc (drop 3 framed_func.params)
fourth_has_slot = (inr (omega (arith, fourth_slot), tt), tt)

emit_prologue-IsOpened_example : IsOpened framed_func framed_alloc some_regs no_mem no_flags
emit_prologue-IsOpened_example =
    emit_prologue-IsOpened framed_func framed_alloc some_regs no_mem no_flags framed_fits
      (omega arith) keeps_s0 (omega arith) fourth_has_slot

abbrev opened : IsOpened framed_func framed_alloc some_regs no_mem no_flags
opened =
    emit_prologue-IsOpened framed_func framed_alloc some_regs no_mem no_flags framed_fits
      (omega arith) keeps_s0 (omega arith) fourth_has_slot

emit_epilogue-IsClosed_example :
    IsClosed framed_func framed_alloc some_regs opened.after opened.after_mem no_flags
emit_epilogue-IsClosed_example =
    emit_epilogue-IsClosed framed_func framed_alloc some_regs no_mem no_flags framed_fits
      (omega arith) keeps_s0 opened opened.after opened.after_mem no_flags refl (λ a low high. refl)

slot_fp_offset-below_example :
    ((999 + word16 (slot_fp_offset 1 framed_func framed_alloc)) % 65536
      ≡ 1000 - saved_words framed_func framed_alloc - 2)
    × (1000 - saved_words framed_func framed_alloc - count_slots framed_func
        ≤ (999 + word16 (slot_fp_offset 1 framed_func framed_alloc)) % 65536)
slot_fp_offset-below_example =
    slot_fp_offset-below framed_func framed_alloc 1000 1 framed_room (omega arith) (omega arith)

abbrev nops : ℕ → List Asm → List Asm
nops zero rest = rest
nops (suc n) rest = Asm.mov 5 5 ∷ nops n rest

-- A branch over 130 instructions.
abbrev long_program : List Asm
long_program =
    Asm.branch_to Cond.beq (label_in LabelKind.block [] 1)
    ∷ nops 130 (Asm.at_label (label_in LabelKind.block [] 1) ∷ [])

nops-AreOld :
    (n : ℕ) (rest : List Asm) → All (IsOldLine [] 0) rest → All (IsOldLine [] 0) (nops n rest)
nops-AreOld zero rest h = h
nops-AreOld (suc n) rest h = (tt, nops-AreOld n rest h)

relax_loop-sweep_example :
    sweep 3 (relax_loop 16 [] long_program 0) (ready some_regs no_mem (4, 4))
    ≡ sweep 3 long_program (ready some_regs no_mem (4, 4))
unfolding label_eq
relax_loop-sweep_example =
    relax_loop-sweep [] 3 16 0 long_program (ready some_regs no_mem (4, 4))
      (
        λ j le. (refl, refl),
        nops-AreOld 130 (Asm.at_label (label_in LabelKind.block [] 1) ∷ []) (tt, tt),
      )
      tt

-- The branch of the program is replaced.
long_branch_relaxed :
    take 5 (relax_loop 16 [] long_program 0)
    ≡ Asm.branch_to Cond.beq (label_in LabelKind.relax_take [] 0)
      ∷ Asm.branch_to Cond.always (label_in LabelKind.relax_skip [] 0)
      ∷ Asm.at_label (label_in LabelKind.relax_take [] 0)
      ∷ Asm.jump (label_in LabelKind.block [] 1)
      ∷ Asm.at_label (label_in LabelKind.relax_skip [] 0)
      ∷ []
unfolding relax_loop label_eq
long_branch_relaxed = refl

-- The element of width 2 at index 3 of base 65535, the base in the destination: 12, not 5.
gep_loses_base :
    read_reg (exec (gep_lines 5 (pos 2) 5 6) (ready some_regs no_mem no_flags)).regs 5 ≡ 12
unfolding exec step
gep_loses_base = refl

-- -1 and 15 are the same 4 bits: the machine reads 15 without a prefix as -1.
nibble_clash :
    read_reg (exec (emit_load_imm 5 (pos 15)) (ready some_regs no_mem no_flags)).regs 5 ≡ 65535
unfolding exec emit_load_imm step
nibble_clash = refl

-- `f(b, a)` with `a` in a0 and `b` in a1.
abbrev swapped_alloc : Regalloc
swapped_alloc = record { n_vregs = 2; color = 2 ∷ 1 ∷ []; n_spills = 0 }

swap_lines :
    (copy_loop 3 (new_copies swapped_alloc 1 (v 0 ∷ v 1 ∷ [])) []).1
    ≡ Asm.mov 7 2 ∷ Asm.mov 2 1 ∷ Asm.mov 1 7 ∷ []
unfolding copy_loop new_copies vreg2phys
swap_lines = refl

copy_loop-AreArgumentsLoaded_example :
    (first_pending (copy_loop 3 (new_copies swapped_alloc 1 (v 0 ∷ v 1 ∷ [])) []).0 ≡ [])
    × AreArgumentsLoaded swapped_alloc
        (v 0 ∷ v 1 ∷ [])
        (copy_loop 3 (new_copies swapped_alloc 1 (v 0 ∷ v 1 ∷ [])) []).1
        some_regs
        no_mem
        no_flags
copy_loop-AreArgumentsLoaded_example =
    copy_loop-AreArgumentsLoaded swapped_alloc (v 0 ∷ v 1 ∷ []) some_regs no_mem no_flags
      (omega arith) some_regs-AreWords

-- `%0 = %1 - 5`, where %1 is in a0 and %0 in a1
emit_value-Puts_example :
    Puts
      (emit_value framed_func swapped_alloc 2
        (binary Op.sub (v 0) 1 IrType.i16 (Value.imm (pos 5) IrType.i16))
        0).0
      (t3 ∷ [])
      2
      (compute AluOp.sub 9 5)
      some_regs
      no_mem
      no_flags
unfolding vreg2phys
emit_value-Puts_example =
    emit_value-Puts framed_func swapped_alloc 2 0 (v 0) 1 IrType.i16 some_regs no_mem no_flags
      some_regs-AreWords (omega arith) refl refl AluOp.sub (Value.imm (pos 5) IrType.i16) tt
