-- ===== src/Codegen/Arguments.antt =====
-- The arguments of a call that come in registers: `copy_loop` on the copies that the call makes.
use compilador.Prelude.{
  ℕ, zero, suc, ◌+◌, ◌<◌, ◌≤◌, ◌≡◌, refl, ap, sym, subst, ◌∙◌, true, false, ◌&&◌, List, [], ◌∷◌,
  leb, ◌==◌, if◌then◌else◌, inl, inr, arith, Bool-cases, length, get_or, ==_iff,
}
use compilador.Ir.Types.{Value, no_value}
use compilador.Regalloc.Build.{Regalloc}
use compilador.Codegen.Asm.{Asm, a0}
use compilador.Codegen.Machine.{ready, read_reg, exec}
use compilador.Codegen.Puts.{AreWords}
use compilador.Codegen.Registers.{vreg2phys}
use compilador.Codegen.Call.{
  ArgCopy, is_register_arg, first_pending, copy_loop, new_copy, new_copies,
}
use compilador.Codegen.Parallel.{copy_at, home}
use compilador.Codegen.Drains.{IsRun}
use compilador.Codegen.Copies.{none_at, pending_count-le_length, IsCopied, copies_all}

-- The source of an argument, where it is a register.
abbrev pub value_of : Regalloc → (ℕ → ℕ) → Value → ℕ
value_of ra regs (Value.vreg v type) = read_reg regs (vreg2phys ra v)
value_of ra regs _ = 0

abbrev pub arg_at : List Value → ℕ → Value
arg_at args i = get_or args i no_value

length-new_copies :
    (ra : Regalloc) (dst : ℕ) (args : List Value) → length (new_copies ra dst args) ≡ length args
unfolding new_copies
length-new_copies ra dst [] = refl
length-new_copies ra dst (arg ∷ args) = ap suc (length-new_copies ra (dst + 1) args)

copy_at-new_copies :
    (ra : Regalloc) (dst : ℕ) (args : List Value) (i : ℕ)
    → i < length args
    → copy_at (new_copies ra dst args) i ≡ new_copy ra (dst + i) (arg_at args i)
unfolding new_copies
copy_at-new_copies ra dst [] i lt = absurd (omega arith)
copy_at-new_copies ra dst (arg ∷ args) zero lt = ap (λ d. new_copy ra d arg) (omega arith)
copy_at-new_copies ra dst (arg ∷ args) (suc i) lt =
    copy_at-new_copies ra (dst + 1) args i (omega arith)
    ∙ ap (λ d. new_copy ra d (arg_at args i)) (omega arith)

new_copy_dst : (ra : Regalloc) (d : ℕ) (arg : Value) → (new_copy ra d arg).dst ≡ d
new_copy_dst ra d (Value.vreg v type) = refl
new_copy_dst ra d (Value.imm k type) = refl
new_copy_dst ra d (Value.global name type) = refl
new_copy_dst ra d (Value.slot s type) = refl
new_copy_dst ra d (Value.label b) = refl
new_copy_dst ra d Value.no_value = refl

new_copy_arg : (ra : Regalloc) (d : ℕ) (arg : Value) → (new_copy ra d arg).arg ≡ arg
new_copy_arg ra d (Value.vreg v type) = refl
new_copy_arg ra d (Value.imm k type) = refl
new_copy_arg ra d (Value.global name type) = refl
new_copy_arg ra d (Value.slot s type) = refl
new_copy_arg ra d (Value.label b) = refl
new_copy_arg ra d Value.no_value = refl

new_copy_val :
    (ra : Regalloc) (regs : ℕ → ℕ) (d : ℕ) (arg : Value)
    → is_register_arg (new_copy ra d arg).arg ≡ true
    → read_reg regs (home (new_copy ra d arg)) ≡ value_of ra regs arg
new_copy_val ra regs d (Value.vreg v type) reg = elim (Bool-cases (d == vreg2phys ra v)) [
  | inl same ↦ rw same (ap (read_reg regs) ((==_iff d (vreg2phys ra v)).0 same))
  | inr other ↦ rw other refl
]
new_copy_val ra regs d (Value.imm k type) reg = cc
new_copy_val ra regs d (Value.global name type) reg = cc
new_copy_val ra regs d (Value.slot s type) reg = cc
new_copy_val ra regs d (Value.label b) reg = cc
new_copy_val ra regs d Value.no_value reg = cc

-- The lines leave the value of each register argument in its argument register.
pub record AreArgumentsLoaded (ra : Regalloc) (args : List Value) (code : List Asm)
    (regs mem : ℕ → ℕ) (flags : ℕ × ℕ) : Type 0 where
  pub after : ℕ → ℕ
  pub runs : exec code (ready regs mem flags) ≡ ready after mem flags
  pub loaded :
      (i : ℕ)
      → i < length args
      → is_register_arg (arg_at args i) ≡ true
      → read_reg after (1 + i) ≡ value_of ra regs (arg_at args i)
  pub others :
      (k : ℕ)
      → (leb 1 k && leb k (length args)) ≡ false
      → (k == 7) ≡ false
      → read_reg after k ≡ read_reg regs k

module _ (ra : Regalloc) (args : List Value) (regs mem : ℕ → ℕ) (flags : ℕ × ℕ)
    (few : length args ≤ 3) (words : AreWords regs) where
  abbrev cps : List ArgCopy
  cps = new_copies ra a0 args

  at_start : (i : ℕ) → i < length args → copy_at cps i ≡ new_copy ra (1 + i) (arg_at args i)
  at_start i lt = copy_at-new_copies ra a0 args i lt

  first_run :
      IsRun regs mem flags
        (arg_at args)
        (λ i. value_of ra regs (arg_at args i))
        (length args)
        cps
        []
  unfolding exec
  first_run = record {
    regs = regs;
    runs = refl;
    words = words;
    kept = λ k low seven. refl;
    held = record {
      size = length-new_copies ra a0 args;
      dsts = λ i lt. ap (λ c. c.dst) (at_start i lt) ∙ new_copy_dst ra (1 + i) (arg_at args i);
      args = λ i lt. ap (λ c. c.arg) (at_start i lt) ∙ new_copy_arg ra (1 + i) (arg_at args i);
      vals = λ i lt.
          subst
            (λ c.
              is_register_arg c.arg ≡ true
              → read_reg regs (home c) ≡ value_of ra regs (arg_at args i))
            (sym (at_start i lt)) (new_copy_val ra regs (1 + i) (arg_at args i));
    };
  }

  all_home :
      {result : List ArgCopy × List Asm}
      (r : IsCopied regs mem flags
        (arg_at args)
        (λ i. value_of ra regs (arg_at args i))
        (length args)
        few
        result)
      (i : ℕ)
      → i < length args
      → is_register_arg (arg_at args i) ≡ true
      → read_reg r.0.regs (1 + i) ≡ value_of ra regs (arg_at args i)
  all_home {result} r i lt reg =
      let c = copy_at result.0 i in
      let is_reg : is_register_arg c.arg ≡ true = ap is_register_arg (r.0.held.args i lt) ∙ reg in
      let settled = none_at result.0 r.1 i (omega (arith, r.0.held.size)) in
      let finished : c.done ≡ true = ground arith in
      let at_dst : home c ≡ 1 + i =
        ap (λ d. if d then c.dst else c.src) finished ∙ r.0.held.dsts i lt in
      ap (read_reg r.0.regs) (sym at_dst) ∙ r.0.held.vals i lt is_reg

  -- The loop over the copies of at most three arguments ends with none pending, and its moves, run in
  -- order, leave in each of a0, a1, a2 that takes a register argument the value which the register of
  -- that argument had before the first move, also where the copies form cycles; of the other
  -- registers at most t3 changes, and the memory is as before. The registers hold words.
  pub copy_loop-AreArgumentsLoaded :
      (first_pending (copy_loop (length args + 1) cps []).0 ≡ [])
      × AreArgumentsLoaded ra args (copy_loop (length args + 1) cps []).1 regs mem flags
  copy_loop-AreArgumentsLoaded =
      let size = length-new_copies ra a0 args in
      let r =
        subst
          (λ fuel.
            IsCopied regs mem flags (arg_at args) (λ i. value_of ra regs (arg_at args i))
              (length args) few (copy_loop fuel cps []))
          (omega arith)
          (copies_all regs mem flags _ _ (length args) few (length args) cps []
            (omega (arith, pending_count-le_length cps)) first_run) in
      (
        r.1,
        record {
          after = r.0.regs;
          runs = r.0.runs;
          loaded = λ i lt reg. all_home r i lt reg;
          others = r.0.kept;
        },
      )
