-- ===== src/Codegen/Emit.antt =====
-- The low-level emitters of CodeGen/codegen.c: immediates, the stack pointer, two-address arithmetic
-- and comparisons. Each gives the lines that it prints.
use compilador.Prelude.{
  ℕ, zero, suc, ◌-◌, ◌/◌, ◌%◌, Bool, true, false, not, ◌&&◌, List, [], ◌∷◌, ◌++◌, ltb, leb, ◌==◌,
  if◌then◌else◌,
}
use compilador.Prelude.Int.{ℤ, pos, negsuc}
use compilador.Ir.Instr.{Op}
use compilador.Codegen.Asm.{
  Asm, AluOp, Cond, Label, LabelKind, always, beq, blt, ble, bleu, bletu, r0, t0, t1, t3, sp,
  word16,
}

-- `z >= -8 && z <= 7`
abbrev pub fits_nibble : ℤ → Bool
fits_nibble (pos n) = leb n 7
fits_nibble (negsuc n) = leb n 7

unfoldable pub emit_addi_imm : ℕ → ℕ → ℤ → List Asm
emit_addi_imm rd rs offset =
    if fits_nibble offset
    then Asm.addi rd rs offset ∷ []
    else Asm.imm_prefix (word16 offset / 16) ∷ Asm.addi rd rs (pos (word16 offset % 16)) ∷ []

-- The loop for a positive and for a negative `delta`, of which `n` words are left; a round takes 7,
-- respectively 8, or what is left.
unfoldable pub free_words : ℕ → ℕ → List Asm
free_words zero n = []
free_words (suc fuel) n =
    let step = if ltb 7 n then 7 else n in
    let rest = free_words fuel (n - step) in if n == 0 then [] else Asm.addi sp sp (pos step) ∷ rest

unfoldable pub take_words : ℕ → ℕ → List Asm
take_words zero n = []
take_words (suc fuel) n =
    let step = if ltb 8 n then 8 else n in
    let rest = take_words fuel (n - step) in
    if n == 0 then [] else Asm.addi sp sp (negsuc (step - 1)) ∷ rest

unfoldable pub emit_sp_adj : ℤ → List Asm
emit_sp_adj (pos n) = free_words n n
emit_sp_adj (negsuc n) = take_words (suc n) (suc n)

unfoldable pub emit_binop_rr : AluOp → ℕ → ℕ → ℕ → List Asm
emit_binop_rr mnem dst a b =
    if dst == a
    then Asm.alu mnem dst b ∷ []
    else if dst == b
    then Asm.alu mnem dst a ∷ []
    else Asm.mov dst a ∷ Asm.alu mnem dst b ∷ []

-- `strcmp(mnem, "SUB") == 0`
abbrev pub is_sub : AluOp → Bool
is_sub AluOp.sub = true
is_sub _ = false

unfoldable pub emit_binop_rr_nc : AluOp → ℕ → ℕ → ℕ → List Asm
emit_binop_rr_nc mnem dst a b =
    if dst == a
    then Asm.alu mnem dst b ∷ []
    else if dst == b
    then if is_sub mnem
      then Asm.neg dst ∷ Asm.alu AluOp.add dst a ∷ []
      else Asm.mov t3 b ∷ Asm.mov dst a ∷ Asm.alu mnem dst t3 ∷ []
    else Asm.mov dst a ∷ Asm.alu mnem dst b ∷ []

-- `if (strcmp(dst, src) != 0) fprintf(out, "MOV(%s, %s)", dst, src)`
abbrev pub move_unless_same : ℕ → ℕ → List Asm
move_unless_same dst src = if dst == src then [] else Asm.mov dst src ∷ []

-- `dst ^= rhs` after `scratch = dst & rhs`, then `dst ^= scratch`.
abbrev pub or_by_hand : ℕ → ℕ → ℕ → List Asm
or_by_hand dst rhs scratch =
    Asm.mov scratch dst
    ∷ Asm.alu AluOp.and scratch rhs
    ∷ Asm.alu AluOp.xor dst rhs
    ∷ Asm.alu AluOp.xor dst scratch
    ∷ []

-- Steps (2) and (3), after the swap of step (1).
abbrev pub emit_or_sides : ℕ → ℕ → ℕ → List Asm
emit_or_sides dst lhs rhs =
    if dst == t0
    then if rhs == t3
      then Asm.push t1 ∷ (move_unless_same dst lhs ++ (or_by_hand dst rhs t1 ++ Asm.pop t1 ∷ []))
      else move_unless_same dst lhs ++ or_by_hand dst rhs t3
    else if rhs == t0 && not (lhs == t0)
    then move_unless_same dst rhs ++ Asm.or_macro dst lhs ∷ []
    else move_unless_same dst lhs ++ Asm.or_macro dst rhs ∷ []

unfoldable pub emit_or_rr : ℕ → ℕ → ℕ → List Asm
emit_or_rr dst a b =
    if dst == b && not (dst == a) then emit_or_sides dst b a else emit_or_sides dst a b

-- The mnemonic, and whether the operands are swapped.
unfoldable pub cmp_to_branch : Op → Cond × Bool
cmp_to_branch Op.eq = (beq, false)
cmp_to_branch Op.neq = (beq, true)
cmp_to_branch Op.lts = (blt, false)
cmp_to_branch Op.les = (ble, false)
cmp_to_branch Op.gts = (blt, true)
cmp_to_branch Op.ges = (ble, true)
cmp_to_branch Op.ltu = (bleu, false)
cmp_to_branch Op.leu = (bletu, false)
cmp_to_branch Op.gtu = (bleu, true)
cmp_to_branch Op.geu = (bletu, true)
cmp_to_branch _ = (beq, false)

abbrev pub is_neq : Op → Bool
is_neq Op.neq = true
is_neq _ = false

abbrev pub label_in : LabelKind → List ℕ → ℕ → Label
label_in kind func_name n = record { label_kind = kind; scope = func_name; number = n }

-- The lines for the function named `func_name` and the value `lbl` of `g_cmp_label`, which the
-- caller then raises.
unfoldable pub emit_comparison : Op → ℕ → ℕ → ℕ → List ℕ → ℕ → List Asm
unfolding cmp_to_branch
emit_comparison op rd ra_r rb_r func_name lbl =
    let (bmnem, swap) = cmp_to_branch op in
    let cmp_a = if swap then rb_r else ra_r in
    let cmp_b = if swap then ra_r else rb_r in
    let done = label_in LabelKind.cmp_done func_name lbl in
    if is_neq op
    then Asm.cmp cmp_a cmp_b
      ∷ Asm.addi rd r0 (pos 1)
      ∷ Asm.branch_to beq (label_in LabelKind.cmp_false func_name lbl)
      ∷ Asm.branch_to always done
      ∷ Asm.at_label (label_in LabelKind.cmp_false func_name lbl)
      ∷ Asm.addi rd r0 (pos 0)
      ∷ Asm.at_label done
      ∷ []
    else Asm.cmp cmp_a cmp_b
      ∷ Asm.addi rd r0 (pos 0)
      ∷ Asm.branch_to bmnem (label_in LabelKind.cmp_true func_name lbl)
      ∷ Asm.branch_to always done
      ∷ Asm.at_label (label_in LabelKind.cmp_true func_name lbl)
      ∷ Asm.addi rd r0 (pos 1)
      ∷ Asm.at_label done
      ∷ []
