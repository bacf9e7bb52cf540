-- ===== src/Codegen/Closes.antt =====
-- The prologue and the epilogue of a function that needs a frame (`emit_prologue` and `emit_epilogue` of
-- CodeGen/codegen.c), run on the machine.
use compilador.Codegen.Freed.{frame_closes, AreSaved-agree, AreSaved-word}
use compilador.Codegen.Loaded.{
  AreLoaded, AreLoaded-agree, HasOwnSlots, above-IsOutside, load_params-IsFilled,
}
use compilador.Codegen.Kept.{
  MustKeep, NeedsFrame, saved-MustKeep, needs_no_frame-NeedsFrame, saved_words-le,
}
use compilador.Prelude.{
  ◌≢◌, inl, inr, Bool-cases, ℕ, ◌+◌, ◌-◌, ◌<◌, ◌≤◌, ◌≡◌, refl, ap, sym, ◌∙◌, subst, false, [], ◌∷◌,
  ◌++◌, ◌==◌, arith, length, elem, drop,
}
use compilador.Prelude.Int.{pos}
use compilador.Ir.Instr.{Function}
use compilador.Regalloc.Build.{Regalloc}
use compilador.Codegen.Asm.{Asm, t3, fp, sp}
use compilador.Codegen.Machine.{ready, exec}
use compilador.Codegen.Emit.{emit_sp_adj}
use compilador.Codegen.Frame.{
  count_slots, minus, save_registers, restore_registers, load_params, emit_prologue, emit_epilogue,
}
use compilador.Codegen.Or.{exec-append}
use compilador.Codegen.Saved.{AreSaved}
use compilador.Codegen.RoundTrip.{saved_after_fp, saved_words, append_assoc, frame_opens}

-- The state that the prologue leaves, in terms of the registers `old` and the memory `mem` at the
-- entry.
pub record IsOpened (func : Function) (ra : Regalloc) (old mem : ℕ → ℕ) (flags : ℕ × ℕ)
    : Type 0 where
  pub after : ℕ → ℕ
  pub after_mem : ℕ → ℕ
  pub runs : exec (emit_prologue func ra) (ready old mem flags) ≡ ready after after_mem flags
  pub pointer : after sp ≡ old sp - saved_words func ra - count_slots func
  pub frame : after fp ≡ old sp - 1
  pub others :
      (k : ℕ) → 0 < k → (k == sp) ≡ false → (k == fp) ≡ false → (k == t3) ≡ false → after k ≡ old k
  pub stored :
      (k : ℕ)
      → MustKeep func ra k
      → (a : ℕ) × (after sp + count_slots func ≤ a) × (a < old sp) × (after_mem a ≡ old k)
  pub saved : AreSaved old after_mem (old sp) (fp ∷ saved_after_fp func ra)
  pub loaded : AreLoaded func ra after_mem mem (old sp) (old sp) (drop 3 func.params)
  pub above : (a : ℕ) → old sp ≤ a → after_mem a ≡ mem a

-- The state that the epilogue leaves to its return, in terms of the registers `old` at the entry of
-- the function and `regs` at that of the epilogue.
pub record IsClosed (func : Function) (ra : Regalloc) (old regs mem : ℕ → ℕ) (flags : ℕ × ℕ)
    : Type 0 where
  pub after : ℕ → ℕ
  pub runs :
      exec (emit_epilogue func ra) (ready regs mem flags)
      ≡ exec (Asm.ret ∷ []) (ready after mem flags)
  pub pointer : after sp ≡ old sp
  pub restored : (k : ℕ) → MustKeep func ra k → after k ≡ old k
  pub others : (k : ℕ) → 0 < k → k ≢ sp → (MustKeep func ra k → ⊥) → after k ≡ regs k

-- No register that is to be kept is sp.
MustKeep-sp : (func : Function) (ra : Regalloc) (k : ℕ) → MustKeep func ra k → (k == sp) ≡ false
MustKeep-sp func ra k (inl frame) = rw frame refl
MustKeep-sp func ra k (inr (inl link)) = rw link.0 refl
MustKeep-sp func ra k (inr (inr callee)) = ground (arith, callee.1)

module _ (func : Function) (ra : Regalloc) (old mem : ℕ → ℕ) (flags : ℕ × ℕ)
    (room : 6 + count_slots func ≤ old sp) (small : old sp < 65536)
    (framed : NeedsFrame func ra) where
  fits : saved_words func ra + count_slots func ≤ old sp
  fits = omega (arith, saved_words-le func ra)

  -- A function needs a frame if it calls, if a virtual register has one of r8 to r11, if it has
  -- slots or if it has more than three parameters. The registers that it must keep are fp, lr if it
  -- calls, and those of r8 to r11 that a virtual register has. The prologue of a function that needs
  -- a frame stores each register that the function must keep in a word between the slots and the old
  -- sp, points fp at the word below the old sp, takes the words of the slots, and copies each
  -- parameter from the fourth on that has a slot from the caller's word, the first of which is at
  -- the old sp, into its slot. Every register but fp, sp and t3 is as before, and so is the memory
  -- from the old sp on. The stack has room for six words and the slots, the caller's words lie
  -- below 2 ^ 16, and the parameters have slots of the frame, each its own.
  pub emit_prologue-IsOpened :
      old sp + length (drop 3 func.params) ≤ 65536
      → HasOwnSlots func ra (drop 3 func.params)
      → IsOpened func ra old mem flags
  unfolding emit_prologue
  emit_prologue-IsOpened below own =
      let o = frame_opens func ra old mem flags fits small in
      let params = drop 3 func.params in
      let loads =
        load_params-IsFilled func ra params 1 (old sp) o.after o.after_mem flags fits
          (omega (arith, below)) (omega arith) o.frame own in
      let kept : (a : ℕ) → old sp - saved_words func ra ≤ a → loads.after_mem a ≡ o.after_mem a =
        λ a le. loads.outside a (above-IsOutside func ra (old sp) a params fits le own) in
      record {
        after = loads.after;
        after_mem = loads.after_mem;
        runs = rw (needs_no_frame-NeedsFrame func ra framed) (
            ap (λ t. exec t (ready old mem flags))
              (sym
                (append_assoc (save_registers func ra) (emit_sp_adj (minus (count_slots func))) _))
            ∙ exec-append (save_registers func ra ++ emit_sp_adj (minus (count_slots func))) _ _
            ∙ ap (exec (load_params params 1 func ra)) o.runs
            ∙ loads.runs);
        pointer = loads.others sp refl ∙ o.pointer;
        frame = loads.others fp refl ∙ o.frame;
        others = λ k h no_sp no_fp no_t3. loads.others k no_t3 ∙ o.others k h no_sp no_fp;
        stored = λ k keep.
            let (a, low, high, word) =
              AreSaved-word old o.after_mem (old sp) k (fp ∷ saved_after_fp func ra)
                (omega (arith, fits)) o.saved ((saved-MustKeep func ra k).1 keep) in
            (a, omega (arith, low, loads.others sp refl, o.pointer, fits), high, kept a low ∙ word);
        saved =
            AreSaved-agree old o.after_mem loads.after_mem (old sp) (fp ∷ saved_after_fp func ra)
              (omega (arith, fits)) (λ a low high. kept a low) o.saved;
        loaded =
            AreLoaded-agree func ra loads.after_mem mem o.after_mem (old sp) (old sp) params o.above
              (subst (λ f. AreLoaded func ra loads.after_mem o.after_mem (old sp) f params)
                (omega (arith, fits)) loads.loaded);
        above = λ a le. kept a (omega arith) ∙ o.above a le;
      }

  -- The epilogue, run in any state in which sp is where the prologue left it and the words between
  -- the slots and the old sp are as the prologue left them, comes to its return with sp and every
  -- register that the function must keep as they were at the entry: fp, lr if the function calls, and
  -- those of r8 to r11 that a virtual register has. It leaves the other registers, the memory and the
  -- flags. The function needs a frame: it calls, a virtual register has one of r8 to r11, it has
  -- slots or it has more than three parameters. The stack had room for six words and the slots.
  pub emit_epilogue-IsClosed :
      (o : IsOpened func ra old mem flags) (regs mem₂ : ℕ → ℕ) (flags₂ : ℕ × ℕ)
      → regs sp ≡ o.after sp
      → ((a : ℕ) → o.after sp + count_slots func ≤ a → a < old sp → mem₂ a ≡ o.after_mem a)
      → IsClosed func ra old regs mem₂ flags₂
  unfolding emit_epilogue
  emit_epilogue-IsClosed o regs mem₂ flags₂ bottom same =
      let words =
        AreSaved-agree old o.after_mem mem₂ (old sp) (fp ∷ saved_after_fp func ra)
          (omega (arith, fits)) (λ a low high. same a (omega (arith, o.pointer, fits)) high)
          o.saved in
      let c = frame_closes func ra old fits small regs mem₂ flags₂ (bottom ∙ o.pointer) words in
      record {
        after = c.after;
        runs = rw (needs_no_frame-NeedsFrame func ra framed) (
            ap (λ t. exec t (ready regs mem₂ flags₂))
              (sym (
                append_assoc (emit_sp_adj (pos (count_slots func))) (restore_registers func ra)
                  (Asm.ret ∷ [])))
            ∙ exec-append (emit_sp_adj (pos (count_slots func)) ++ restore_registers func ra)
                (Asm.ret ∷ []) _
            ∙ ap (exec (Asm.ret ∷ [])) c.runs);
        pointer = c.pointer;
        restored =
            λ k keep. c.restored k (MustKeep-sp func ra k keep) ((saved-MustKeep func ra k).1 keep);
        others = λ k h other free.
            c.others k h (ground (arith, other))
              (elim (Bool-cases (elem k (fp ∷ saved_after_fp func ra))) [
                | inl inside ↦ absurd (free ((saved-MustKeep func ra k).0 inside))
                | inr outside ↦ outside
              ]);
      }
