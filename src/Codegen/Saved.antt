-- ===== src/Codegen/Saved.antt =====
-- The pushes and the pops of the saved registers (CodeGen/codegen.c), on the machine.
use mathlib.Core.List.{reverse, reverse-cons}
use compilador.Prelude.{
  ℕ, suc, ◌+◌, ◌-◌, ◌%◌, ◌<◌, ◌≤◌, ◌≡◌, refl, ap, sym, ◌∙◌, subst, true, false, List, [], ◌∷◌, ◌++◌,
  map, ◌==◌, inl, inr, arith, Bool-cases, length, elem, All, length-append,
}
use compilador.Codegen.Asm.{Asm, expand, sp}
use compilador.Codegen.Machine.{Machine, ready, read_reg, write, step, exec}

-- `value r` for each register of the list, from the word below `top` downwards.
abbrev pub AreSaved : (ℕ → ℕ) → (ℕ → ℕ) → ℕ → List ℕ → Type 0
AreSaved value mem top [] = Unit
AreSaved value mem top (r ∷ rs) = (mem (top - 1) ≡ value r) × AreSaved value mem (top - 1) rs

-- The same from the word at `bottom` upwards.
abbrev pub AreStacked : (ℕ → ℕ) → (ℕ → ℕ) → ℕ → List ℕ → Type 0
AreStacked value mem bottom [] = Unit
AreStacked value mem bottom (r ∷ rs) = (mem bottom ≡ value r) × AreStacked value mem (bottom + 1) rs

AreStacked-append :
    (value mem : ℕ → ℕ) (bottom : ℕ) (xs : List ℕ) (r : ℕ)
    → AreStacked value mem bottom xs
    → mem (bottom + length xs) ≡ value r
    → AreStacked value mem bottom (xs ++ r ∷ [])
AreStacked-append value mem bottom [] r h e = (ap mem (omega arith) ∙ e, tt)
AreStacked-append value mem bottom (x ∷ xs) r h e =
    (h.0, AreStacked-append value mem (bottom + 1) xs r h.1 (ap mem (omega arith) ∙ e))

pub length-reverse : (xs : List ℕ) → length (reverse xs) ≡ length xs
length-reverse [] = refl
length-reverse (x ∷ xs) =
    ap length (reverse-cons x xs)
    ∙ omega (arith, length-append (reverse xs) (x ∷ []), length-reverse xs)

-- Read upwards, the words come in the reverse order.
pub AreSaved→AreStacked :
    (value mem : ℕ → ℕ) (top : ℕ) (rs : List ℕ)
    → length rs ≤ top
    → AreSaved value mem top rs
    → AreStacked value mem (top - length rs) (reverse rs)
AreSaved→AreStacked value mem top [] le h = tt
AreSaved→AreStacked value mem top (r ∷ rs) le h =
    subst (AreStacked value mem (top - suc (length rs))) (sym (reverse-cons r rs)) (
      AreStacked-append value mem (top - suc (length rs)) (reverse rs) r
        (subst (λ b. AreStacked value mem b (reverse rs)) (omega arith)
          (AreSaved→AreStacked value mem (top - 1) rs (omega arith) h.1))
        (ap mem (omega (arith, length-reverse rs)) ∙ h.0))

-- Registers that `PUSH` and `POP` can take: not r0, not sp.
abbrev pub IsSavable : ℕ → Type 0
IsSavable r = (0 < r) × ((r == sp) ≡ false)

-- The pushes of `rs`: the words, the stack pointer, and what stays.
pub record IsPushed (rs : List ℕ) (code : List Asm) (regs mem : ℕ → ℕ) (flags : ℕ × ℕ)
    : Type 0 where
  pub after : ℕ → ℕ
  pub after_mem : ℕ → ℕ
  pub runs : exec code (ready regs mem flags) ≡ ready after after_mem flags
  pub pointer : after sp ≡ regs sp - length rs
  pub others : (k : ℕ) → (k == sp) ≡ false → after k ≡ regs k
  pub saved :
      (value : ℕ → ℕ) → All (λ r. regs r ≡ value r) rs → AreSaved value after_mem (regs sp) rs
  pub above : (a : ℕ) → regs sp ≤ a → after_mem a ≡ mem a

AreSaved-eq :
    (value mem new : ℕ → ℕ) (top : ℕ) (rs : List ℕ)
    → ((a : ℕ) → new a ≡ mem a)
    → AreSaved value mem top rs
    → AreSaved value new top rs
AreSaved-eq value mem new top [] same h = tt
AreSaved-eq value mem new top (r ∷ rs) same h =
    (same (top - 1) ∙ h.0, AreSaved-eq value mem new (top - 1) rs same h.1)

still_held :
    (value regs : ℕ → ℕ) (w : ℕ) (rs : List ℕ)
    → All IsSavable rs
    → All (λ r. regs r ≡ value r) rs
    → All (λ r. write regs sp w r ≡ value r) rs
still_held value regs w [] ok h = tt
still_held value regs w (r ∷ rs) ok h =
    let other : (r == sp) ≡ false = ok.0.1 in (rw other h.0, still_held value regs w rs ok.1 h.1)

pub push_runs :
    (r : ℕ) (code : List Asm) (regs mem : ℕ → ℕ) (flags : ℕ × ℕ)
    → IsSavable r
    → 1 ≤ regs sp
    → regs sp < 65536
    → exec (Asm.push r ∷ code) (ready regs mem flags)
      ≡ exec code (ready (write regs sp (regs sp - 1)) (write mem (regs sp - 1) (regs r)) flags)
unfolding exec expand step
push_runs r code regs mem flags ok room small =
    let s = regs sp - 1 in
    let after : ℕ → ℕ → ℕ → Machine =
      λ w a v. exec code (ready (write regs sp w) (write mem a v) flags) in
    let lower : (regs sp + 65535) % 65536 ≡ s = omega arith in
    ap (λ w. after w ((w + 0) % 65536) (read_reg (write regs sp w) r)) lower
    ∙ ap (λ a. after s a (read_reg (write regs sp s) r)) (omega arith)
    ∙ ap (after s s) (ground arith)

pub pushes :
    (rs : List ℕ) (regs mem : ℕ → ℕ) (flags : ℕ × ℕ)
    → All IsSavable rs
    → length rs ≤ regs sp
    → regs sp < 65536
    → IsPushed rs (map Asm.push rs) regs mem flags
unfolding exec expand step
pushes [] regs mem flags ok room small = record {
  after = regs;
  after_mem = mem;
  runs = refl;
  pointer = omega arith;
  others = λ k other. refl;
  saved = λ value h. tt;
  above = λ a h. refl;
}
pushes (r ∷ rs) regs mem flags ok room small =
    let s = regs sp - 1 in
    let new_regs = write regs sp s in
    let new_mem = write mem s (regs r) in
    let rest = pushes rs new_regs new_mem flags ok.1 (omega arith) (omega arith) in
    record {
      after = rest.after;
      after_mem = rest.after_mem;
      runs = push_runs r (map Asm.push rs) regs mem flags ok.0 (omega arith) small ∙ rest.runs;
      pointer = rest.pointer ∙ omega arith;
      others = λ k other. rest.others k other ∙ ground arith;
      saved = λ value h. (
        rest.above s (omega arith) ∙ ground arith,
        rest.saved value (still_held value regs s rs ok.1 h.1),
      );
      above = λ a h. rest.above a (omega arith) ∙ ground arith;
    }

-- The pops of `rs` from the word that sp is at.
pub record IsPopped (rs : List ℕ) (code : List Asm) (regs mem : ℕ → ℕ) (flags : ℕ × ℕ)
    : Type 0 where
  pub after : ℕ → ℕ
  pub runs : exec code (ready regs mem flags) ≡ ready after mem flags
  pub pointer : after sp ≡ regs sp + length rs
  pub others : (k : ℕ) → (k == sp) ≡ false → elem k rs ≡ false → after k ≡ regs k
  pub restored :
      (value : ℕ → ℕ)
      → AreStacked value mem (regs sp) rs
      → (k : ℕ) → (k == sp) ≡ false
      → elem k rs ≡ true
      → after k ≡ value k

pop_runs :
    (r : ℕ) (code : List Asm) (regs mem : ℕ → ℕ) (flags : ℕ × ℕ)
    → IsSavable r
    → regs sp < 65535
    → exec (Asm.pop r ∷ code) (ready regs mem flags)
      ≡ exec code (ready (write (write regs r (mem (regs sp))) sp (regs sp + 1)) mem flags)
unfolding exec expand step
pop_runs r code regs mem flags ok small =
    let at : (regs sp + 0) % 65536 ≡ regs sp = omega arith in
    let after : ℕ → ℕ → Machine =
      λ a w. exec code (ready (write (write regs r (mem a)) sp w) mem flags) in
    let next : ((write regs r (mem (regs sp))) sp + 1) % 65536 ≡ regs sp + 1 = ground arith in
    ap (λ a. after a (((write regs r (mem a)) sp + 1) % 65536)) at ∙ ap (after (regs sp)) next

pub pops :
    (rs : List ℕ) (regs mem : ℕ → ℕ) (flags : ℕ × ℕ)
    → All IsSavable rs
    → regs sp + length rs < 65536
    → IsPopped rs (map Asm.pop rs) regs mem flags
unfolding exec
pops [] regs mem flags ok small = record {
  after = regs;
  runs = refl;
  pointer = omega arith;
  others = λ k other free. refl;
  restored = λ value h k other inside. cc;
}
pops (r ∷ rs) regs mem flags ok small =
    let new_regs = write (write regs r (mem (regs sp))) sp (regs sp + 1) in
    let rest = pops rs new_regs mem flags ok.1 (omega arith) in
    record {
      after = rest.after;
      runs = pop_runs r (map Asm.pop rs) regs mem flags ok.0 (omega arith) ∙ rest.runs;
      pointer = rest.pointer ∙ omega arith;
      others = λ k other free. rest.others k other (ground arith) ∙ ground arith;
      restored = λ value h k other inside. elim (Bool-cases (elem k rs)) [
        | inl later ↦ rest.restored value h.1 k other later
        | inr now ↦
            let e : k ≡ r = ground arith in
            rest.others k other now ∙ (ground arith) ∙ h.0 ∙ ap value (sym e)
      ];
    }
