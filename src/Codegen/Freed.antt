-- ===== src/Codegen/Freed.antt =====
-- The words that the prologue saved and the end of the epilogue (`restore_registers` of
-- CodeGen/codegen.c), on the machine.
use mathlib.Core.List.{reverse}
use compilador.Codegen.Kept.{clash}
use compilador.Prelude.{
  inl, inr, Bool-cases, ==_iff, ℕ, ◌+◌, ◌-◌, ◌<◌, ◌≤◌, ◌≡◌, refl, ap, sym, ◌∙◌, subst, true, false,
  List, [], ◌∷◌, ◌++◌, ◌==◌, arith, length, elem,
}
use compilador.Prelude.Counting.{elem-reverse}
use compilador.Prelude.Int.{pos}
use compilador.Ir.Instr.{Function}
use compilador.Regalloc.Build.{Regalloc}
use compilador.Codegen.Asm.{fp, sp}
use compilador.Codegen.Machine.{ready, exec}
use compilador.Codegen.Emit.{emit_sp_adj}
use compilador.Codegen.Frame.{count_slots, restore_registers}
use compilador.Codegen.Or.{exec-append}
use compilador.Codegen.Compare.{emit_sp_adj-Puts}
use compilador.Codegen.Saved.{
  AreSaved, AreSaved→AreStacked, AreStacked, IsSavable, length-reverse, pops,
}
use compilador.Codegen.RoundTrip.{
  saved_after_fp, saved_words, saved-IsSavable, kept-IsSavable, All-reverse, restore-map,
}

-- The state after the epilogue up to `RET`, in terms of the registers `old` at the entry.
pub record IsFreed (func : Function) (ra : Regalloc) (old regs mem : ℕ → ℕ) (flags : ℕ × ℕ)
    : Type 0 where
  pub after : ℕ → ℕ
  pub runs :
      exec
        (emit_sp_adj (pos (count_slots func)) ++ restore_registers func ra)
        (ready regs mem flags)
      ≡ ready after mem flags
  pub pointer : after sp ≡ old sp
  pub restored :
      (k : ℕ) → (k == sp) ≡ false → elem k (fp ∷ saved_after_fp func ra) ≡ true → after k ≡ old k
  pub others :
      (k : ℕ)
      → 0 < k
      → (k == sp) ≡ false
      → elem k (fp ∷ saved_after_fp func ra) ≡ false
      → after k ≡ regs k

module _ (func : Function) (ra : Regalloc) (old : ℕ → ℕ)
    (room : saved_words func ra + count_slots func ≤ old sp) (small : old sp < 65536)
    (regs mem : ℕ → ℕ) (flags : ℕ × ℕ)
    (at_bottom : regs sp ≡ old sp - saved_words func ra - count_slots func)
    (kept : AreSaved old mem (old sp) (fp ∷ saved_after_fp func ra)) where
  pub frame_closes : IsFreed func ra old regs mem flags
  frame_closes =
      let rs = reverse (fp ∷ saved_after_fp func ra) in
      let freed = emit_sp_adj-Puts mem flags (pos (count_slots func)) regs (omega arith) in
      let at : freed.after sp ≡ old sp - saved_words func ra = freed.result ∙ omega arith in
      let len = length-reverse (fp ∷ saved_after_fp func ra) in
      let popped =
        pops rs freed.after mem flags
          (All-reverse IsSavable (fp ∷ saved_after_fp func ra)
            ((omega arith, refl), kept-IsSavable _ (saved-IsSavable func ra)))
          (omega (arith, at, len)) in
      record {
        after = popped.after;
        runs =
            exec-append (emit_sp_adj (pos (count_slots func))) _ _
            ∙ ap (exec (restore_registers func ra)) freed.runs
            ∙ ap (λ t. exec t (ready freed.after mem flags)) (restore-map func ra)
            ∙ popped.runs;
        pointer = popped.pointer ∙ omega (arith, at, len);
        restored = λ k other inside.
            popped.restored old
              (subst (λ b. AreStacked old mem b rs) (sym at)
                (AreSaved→AreStacked old mem (old sp) (fp ∷ saved_after_fp func ra) (omega arith)
                  kept))
              k other (elem-reverse k (fp ∷ saved_after_fp func ra) ∙ inside);
        others = λ k h other free.
            popped.others k other (elem-reverse k (fp ∷ saved_after_fp func ra) ∙ free)
            ∙ ground (arith, freed.others k other refl);
      }

pub AreSaved-agree :
    (value mem new : ℕ → ℕ) (top : ℕ) (rs : List ℕ)
    → length rs ≤ top
    → ((a : ℕ) → top - length rs ≤ a → a < top → new a ≡ mem a)
    → AreSaved value mem top rs
    → AreSaved value new top rs
AreSaved-agree value mem new top [] le same h = tt
AreSaved-agree value mem new top (r ∷ rs) le same h = (
  same (top - 1) (omega arith) (omega arith) ∙ h.0,
  AreSaved-agree value mem new (top - 1) rs (omega arith)
      (λ a low high. same a (omega arith) (omega arith)) h.1,
)

-- A saved register has its value in one of the words.
pub AreSaved-word :
    (value mem : ℕ → ℕ) (top k : ℕ) (rs : List ℕ)
    → length rs ≤ top
    → AreSaved value mem top rs
    → elem k rs ≡ true
    → (a : ℕ) × (top - length rs ≤ a) × (a < top) × (mem a ≡ value k)
AreSaved-word value mem top k [] le h inside = absurd (clash refl inside)
AreSaved-word value mem top k (r ∷ rs) le h inside = elim (Bool-cases (k == r)) [
  | inl here ↦
      let e = (==_iff k r).0 here in (top - 1, omega arith, omega arith, h.0 ∙ ap value (sym e))
  | inr other ↦
      let (a, low, high, word) =
        AreSaved-word value mem (top - 1) k rs (omega arith) h.1 (sym (rw other refl) ∙ inside) in
      (a, omega (arith, low), omega (arith, high), word)
]
