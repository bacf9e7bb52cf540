-- ===== src/Codegen/Compare.antt =====
-- What the comparison ladder and the stack adjustment compute, on the machine.
use compilador.Prelude.{
  ℕ, zero, suc, ◌+◌, ◌-◌, ◌%◌, ◌<◌, ◌≤◌, ◌≡◌, refl, ap, ◌∙◌, Bool, true, false, not, List, [], ◌∷◌,
  ltb, leb, ◌==◌, if◌then◌else◌, inl, inr, arith, Bool-cases, bytes_eq_iff,
}
use compilador.Prelude.Int.{ℤ, pos, negsuc, ltb_ℤ}
use compilador.Ir.Instr.{Op}
use compilador.Codegen.Asm.{Asm, Cond, LabelKind, label_eq, expand, sp, word16}
use compilador.Codegen.Machine.{ready, read_reg, write, widen, biased, holds, step, exec}
use compilador.Codegen.Emit.{
  label_in, cmp_to_branch, emit_comparison, emit_sp_adj, free_words, take_words,
}
use compilador.Codegen.Puts.{Puts, Puts-eq, AreWords}

-- The number that a word stands for.
abbrev pub signed : ℕ → ℤ
signed a = if ltb a 32768 then pos a else negsuc (65535 - a)

-- The comparisons of the IR; any other opcode is taken for an equality, as `cmp_to_branch` does.
abbrev pub compares : Op → ℕ → ℕ → Bool
compares Op.eq a b = a == b
compares Op.neq a b = not (a == b)
compares Op.lts a b = ltb_ℤ (signed a) (signed b)
compares Op.les a b = not (ltb_ℤ (signed b) (signed a))
compares Op.gts a b = ltb_ℤ (signed b) (signed a)
compares Op.ges a b = not (ltb_ℤ (signed a) (signed b))
compares Op.ltu a b = ltb a b
compares Op.leu a b = not (ltb b a)
compares Op.gtu a b = ltb b a
compares Op.geu a b = not (ltb a b)
compares _ a b = a == b

signed_order :
    (a b : ℕ) → a < 65536 → b < 65536 → ltb (biased a) (biased b) ≡ ltb_ℤ (signed a) (signed b)
signed_order a b ha hb = ground arith

signed_order_le :
    (a b : ℕ)
    → a < 65536
    → b < 65536
    → leb (biased a) (biased b) ≡ not (ltb_ℤ (signed b) (signed a))
signed_order_le a b ha hb = ground arith

-- The code leaves 1 or 0 in `rd` and may change the flags.
pub record Decides (code : List Asm) (rd : ℕ) (b : Bool) (regs mem : ℕ → ℕ) (flags : ℕ × ℕ)
    : Type 0 where
  pub after : ℕ → ℕ
  pub flags_after : ℕ × ℕ
  pub runs : exec code (ready regs mem flags) ≡ ready after mem flags_after
  pub result : read_reg after rd ≡ (if b then 1 else 0)
  pub others : (k : ℕ) → (k == rd) ≡ false → read_reg after k ≡ read_reg regs k

label_same :
    (kind : LabelKind) (name : List ℕ) (n : ℕ)
    → label_eq (label_in kind name n) (label_in kind name n) ≡ true
unfolding label_eq
label_same kind name n = ground (arith, (bytes_eq_iff name name).1 refl)

done_true :
    (name : List ℕ) (n : ℕ)
    → label_eq (label_in LabelKind.cmp_done name n) (label_in LabelKind.cmp_true name n) ≡ false
unfolding label_eq
done_true name n = refl

done_false :
    (name : List ℕ) (n : ℕ)
    → label_eq (label_in LabelKind.cmp_done name n) (label_in LabelKind.cmp_false name n) ≡ false
unfolding label_eq
done_false name n = refl

module _ (regs mem : ℕ → ℕ) (flags : ℕ × ℕ) (words : AreWords regs) (name : List ℕ) (lbl rd : ℕ)
    (h : 0 < rd) where
  -- The ladder for the condition `c` on the registers `x` and `y`, with 0 assumed.
  ladder :
      (c : Cond) (x y : ℕ) (b : Bool)
      → holds c (read_reg regs x, read_reg regs y) ≡ b
      → Decides
          (Asm.cmp x y
            ∷ Asm.addi rd 0 (pos 0)
            ∷ Asm.branch_to c (label_in LabelKind.cmp_true name lbl)
            ∷ Asm.branch_to Cond.always (label_in LabelKind.cmp_done name lbl)
            ∷ Asm.at_label (label_in LabelKind.cmp_true name lbl)
            ∷ Asm.addi rd 0 (pos 1)
            ∷ Asm.at_label (label_in LabelKind.cmp_done name lbl)
            ∷ [])
          rd
          b
          regs
          mem
          flags
  unfolding exec expand step
  ladder c x y true e = record {
    after = write (write regs rd 0) rd 1;
    flags_after = (read_reg regs x, read_reg regs y);
    runs = rw (e, label_same LabelKind.cmp_true name lbl) refl;
    result = ground arith;
    others = λ k other. ground arith;
  }
  ladder c x y false e = record {
    after = write regs rd 0;
    flags_after = (read_reg regs x, read_reg regs y);
    runs = rw (e, done_true name lbl, label_same LabelKind.cmp_done name lbl) refl;
    result = ground arith;
    others = λ k other. ground arith;
  }

  -- The inverted ladder, with 1 assumed.
  ladder_neq :
      (x y : ℕ) (b : Bool)
      → (read_reg regs x == read_reg regs y) ≡ b
      → Decides
          (Asm.cmp x y
            ∷ Asm.addi rd 0 (pos 1)
            ∷ Asm.branch_to Cond.beq (label_in LabelKind.cmp_false name lbl)
            ∷ Asm.branch_to Cond.always (label_in LabelKind.cmp_done name lbl)
            ∷ Asm.at_label (label_in LabelKind.cmp_false name lbl)
            ∷ Asm.addi rd 0 (pos 0)
            ∷ Asm.at_label (label_in LabelKind.cmp_done name lbl)
            ∷ [])
          rd
          (not b)
          regs
          mem
          flags
  unfolding exec expand step holds
  ladder_neq x y true e = record {
    after = write (write regs rd 1) rd 0;
    flags_after = (read_reg regs x, read_reg regs y);
    runs = rw (e, label_same LabelKind.cmp_false name lbl) refl;
    result = ground arith;
    others = λ k other. ground arith;
  }
  ladder_neq x y false e = record {
    after = write regs rd 1;
    flags_after = (read_reg regs x, read_reg regs y);
    runs = rw (e, done_false name lbl, label_same LabelKind.cmp_done name lbl) refl;
    result = ground arith;
    others = λ k other. ground arith;
  }

  small : (r : ℕ) → read_reg regs r < 65536
  small r = ground (arith, words r)

  -- The comparison ladder leaves 1 in `rd` where the comparison holds and 0 where it does not,
  -- signed or unsigned as the opcode says, also where `rd` is one of the operands, and changes no
  -- other register and no memory. The registers hold words and `rd` is not r0.
  pub emit_comparison-Decides :
      (op : Op) (a b : ℕ)
      → Decides
          (emit_comparison op rd a b name lbl)
          rd
          (compares op (read_reg regs a) (read_reg regs b))
          regs
          mem
          flags
  unfolding emit_comparison cmp_to_branch holds
  emit_comparison-Decides Op.neq a b = ladder_neq b a _ (ground arith)
  emit_comparison-Decides Op.lts a b = ladder Cond.blt a b _ (signed_order _ _ (small a) (small b))
  emit_comparison-Decides Op.les a b =
      ladder Cond.ble a b _ (signed_order_le _ _ (small a) (small b))
  emit_comparison-Decides Op.gts a b = ladder Cond.blt b a _ (signed_order _ _ (small b) (small a))
  emit_comparison-Decides Op.ges a b =
      ladder Cond.ble b a _ (signed_order_le _ _ (small b) (small a))
  emit_comparison-Decides Op.ltu a b = ladder Cond.bleu a b _ refl
  emit_comparison-Decides Op.leu a b = ladder Cond.bletu a b _ (ground arith)
  emit_comparison-Decides Op.gtu a b = ladder Cond.bleu b a _ refl
  emit_comparison-Decides Op.geu a b = ladder Cond.bletu b a _ (ground arith)
  emit_comparison-Decides op a b = ladder Cond.beq a b _ refl

abbrev widened : ℤ → ℕ
widened i = widen (word16 i % 16)

module _ (mem : ℕ → ℕ) (flags : ℕ × ℕ) where
  -- A step of the stack pointer, then the rest.
  stepped :
      (step_imm : ℤ) (w v : ℕ) (code : List Asm) (regs : ℕ → ℕ)
      → (read_reg regs sp + widened step_imm) % 65536 ≡ w
      → Puts code [] sp v (write regs sp w) mem flags
      → Puts (Asm.addi sp sp step_imm ∷ code) [] sp v regs mem flags
  unfolding exec expand step
  stepped step_imm w v code regs e p = record {
    after = p.after;
    runs = ap (λ t. exec code (ready (write regs sp t) mem flags)) e ∙ p.runs;
    result = p.result;
    others = λ k other free. p.others k other free ∙ ground arith;
  }

  none_left : (regs : ℕ → ℕ) (v : ℕ) → read_reg regs sp ≡ v → Puts [] [] sp v regs mem flags
  unfolding exec
  none_left regs v e = record {
    after = regs;
    runs = refl;
    result = e;
    others = λ k other free. refl;
  }

  free_words-Puts :
      (fuel n : ℕ) (regs : ℕ → ℕ)
      → n ≤ fuel
      → regs sp < 65536
      → Puts (free_words fuel n) [] sp ((regs sp + n) % 65536) regs mem flags
  unfolding free_words
  free_words-Puts zero n regs le small = none_left regs _ (ground arith)
  free_words-Puts (suc fuel) n regs le small = elim (Bool-cases (n == 0)) [
    | inl none_more ↦ rw none_more (none_left regs _ (ground arith))
    | inr more ↦
        let part = if ltb 7 n then 7 else n in
        let w = (regs sp + part) % 65536 in
        let rest =
          free_words-Puts fuel (n - part) (write regs sp w) (ground arith) (ground arith) in
        rw more
          (stepped (pos part) w _ _ regs (ground arith) (Puts-eq _ mem flags (ground arith) rest))
  ]

  take_words-Puts :
      (fuel n : ℕ) (regs : ℕ → ℕ)
      → n ≤ fuel
      → regs sp < 65536
      → Puts (take_words fuel n) [] sp ((regs sp + (65536 - n % 65536)) % 65536) regs mem flags
  unfolding take_words
  take_words-Puts zero n regs le small = none_left regs _ (ground arith)
  take_words-Puts (suc fuel) n regs le small = elim (Bool-cases (n == 0)) [
    | inl none_more ↦ rw none_more (none_left regs _ (ground arith))
    | inr more ↦
        let part = if ltb 8 n then 8 else n in
        let w = (regs sp + (65536 - part)) % 65536 in
        let rest =
          take_words-Puts fuel (n - part) (write regs sp w) (ground arith) (ground arith) in
        rw more (
          stepped (negsuc (part - 1)) w _ _ regs (ground arith)
            (Puts-eq _ mem flags (ground arith) rest))
  ]

  -- The loop ends and moves the stack pointer by `delta` words, modulo 2 ^ 16, for every `delta`;
  -- nothing else changes. The stack pointer is a word.
  pub emit_sp_adj-Puts :
      (delta : ℤ) (regs : ℕ → ℕ)
      → regs sp < 65536
      → Puts (emit_sp_adj delta) [] sp ((regs sp + word16 delta) % 65536) regs mem flags
  unfolding emit_sp_adj
  emit_sp_adj-Puts (pos n) regs small =
      Puts-eq regs mem flags (ground arith) (free_words-Puts n n regs (omega arith) small)
  emit_sp_adj-Puts (negsuc n) regs small =
      Puts-eq regs mem flags (ground arith)
        (take_words-Puts (suc n) (suc n) regs (omega arith) small)
