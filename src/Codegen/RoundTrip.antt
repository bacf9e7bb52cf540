-- ===== src/Codegen/RoundTrip.antt =====
-- The frame that the prologue opens and the epilogue closes.
use mathlib.Core.List.{reverse, reverse-cons}
use compilador.Prelude.{
  ℕ, zero, suc, ◌+◌, ◌-◌, ◌%◌, ◌<◌, ◌≤◌, ◌≡◌, refl, ap, sym, ◌∙◌, subst, false, List, [], ◌∷◌, ◌++◌,
  map, ◌==◌, if◌then◌else◌, inl, inr, arith, Bool-cases, length, All, All-append,
}
use compilador.Ir.Instr.{Function}
use compilador.Regalloc.Build.{Regalloc}
use compilador.Codegen.Asm.{Asm, expand, fp, sp, lr, word16}
use compilador.Codegen.Machine.{ready, write, step, exec}
use compilador.Codegen.Emit.{emit_sp_adj}
use compilador.Codegen.Frame.{
  callee_used_mask, function_is_leaf, count_slots, is_used, push_used, pop_used, minus,
  save_registers, restore_registers,
}
use compilador.Codegen.Puts.{Puts}
use compilador.Codegen.Or.{exec-append}
use compilador.Codegen.Compare.{emit_sp_adj-Puts}
use compilador.Codegen.Saved.{AreSaved, IsSavable, pushes, push_runs}

abbrev pub used : ℕ → List ℕ → List ℕ
used callee [] = []
used callee (i ∷ is) = if is_used callee i then (8 + i) ∷ used callee is else used callee is

-- The registers pushed after fp.
abbrev pub saved_after_fp : Function → Regalloc → List ℕ
saved_after_fp func ra =
    (if function_is_leaf func then [] else lr ∷ [])
    ++ used (callee_used_mask ra) (0 ∷ 1 ∷ 2 ∷ 3 ∷ [])

push_used-map : (callee : ℕ) (is : List ℕ) → push_used callee is ≡ map Asm.push (used callee is)
push_used-map callee [] = refl
push_used-map callee (i ∷ is) = elim (Bool-cases (is_used callee i)) [
  | inl here ↦ rw here (ap (λ t. Asm.push (8 + i) ∷ t) (push_used-map callee is))
  | inr skipped ↦ rw skipped (push_used-map callee is)
]

map-append : (f : ℕ → Asm) (xs ys : List ℕ) → map f (xs ++ ys) ≡ map f xs ++ map f ys
map-append f [] ys = refl
map-append f (x ∷ xs) ys = ap (λ t. f x ∷ t) (map-append f xs ys)

append_nil : (xs : List Asm) → xs ++ [] ≡ xs
append_nil [] = refl
append_nil (x ∷ xs) = ap (λ t. x ∷ t) (append_nil xs)

pub append_assoc : (xs ys zs : List Asm) → (xs ++ ys) ++ zs ≡ xs ++ (ys ++ zs)
append_assoc [] ys zs = refl
append_assoc (x ∷ xs) ys zs = ap (λ t. x ∷ t) (append_assoc xs ys zs)

pop_used-append :
    (callee : ℕ) (is js : List ℕ)
    → pop_used callee (is ++ js) ≡ pop_used callee is ++ pop_used callee js
pop_used-append callee [] js = refl
pop_used-append callee (i ∷ is) js = elim (Bool-cases (is_used callee i)) [
  | inl here ↦ rw here (ap (λ t. Asm.pop (8 + i) ∷ t) (pop_used-append callee is js))
  | inr skipped ↦ rw skipped (pop_used-append callee is js)
]

pop_used-reverse :
    (callee : ℕ) (is : List ℕ)
    → pop_used callee (reverse is) ≡ map Asm.pop (reverse (used callee is))
pop_used-reverse callee [] = refl
pop_used-reverse callee (i ∷ is) =
    ap (pop_used callee) (reverse-cons i is)
    ∙ pop_used-append callee (reverse is) (i ∷ [])
    ∙ ap (λ t. t ++ pop_used callee (i ∷ [])) (pop_used-reverse callee is)
    ∙ elim (Bool-cases (is_used callee i)) [
      | inl here ↦ rw here (
          sym (map-append Asm.pop (reverse (used callee is)) ((8 + i) ∷ []))
          ∙ ap (map Asm.pop) (sym (reverse-cons (8 + i) (used callee is))))
      | inr skipped ↦ rw skipped (append_nil _)
    ]

last_pop :
    (r : ℕ) (rs : List ℕ)
    → map Asm.pop (reverse (r ∷ rs)) ≡ map Asm.pop (reverse rs) ++ Asm.pop r ∷ []
last_pop r rs = ap (map Asm.pop) (reverse-cons r rs) ∙ map-append Asm.pop (reverse rs) (r ∷ [])

save-map :
    (func : Function) (ra : Regalloc)
    → (if function_is_leaf func then [] else Asm.push lr ∷ [])
        ++ push_used (callee_used_mask ra) (0 ∷ 1 ∷ 2 ∷ 3 ∷ [])
      ≡ map Asm.push (saved_after_fp func ra)
save-map func ra = elim (Bool-cases (function_is_leaf func)) [
  | inl leaf ↦ rw leaf (push_used-map (callee_used_mask ra) (0 ∷ 1 ∷ 2 ∷ 3 ∷ []))
  | inr calls ↦
      rw calls
        (ap (λ t. Asm.push lr ∷ t) (push_used-map (callee_used_mask ra) (0 ∷ 1 ∷ 2 ∷ 3 ∷ [])))
]

-- The lines of the epilogue pop the registers in the reverse order.
pub restore-map :
    (func : Function) (ra : Regalloc)
    → restore_registers func ra ≡ map Asm.pop (reverse (fp ∷ saved_after_fp func ra))
unfolding restore_registers
restore-map func ra =
    ap (λ t. t ++ ((if function_is_leaf func then [] else Asm.pop lr ∷ []) ++ Asm.pop fp ∷ []))
      (pop_used-reverse (callee_used_mask ra) (0 ∷ 1 ∷ 2 ∷ 3 ∷ []))
    ∙ elim (Bool-cases (function_is_leaf func)) [
      | inl leaf ↦ rw leaf (sym (last_pop fp (used (callee_used_mask ra) (0 ∷ 1 ∷ 2 ∷ 3 ∷ []))))
      | inr calls ↦
          let regs = used (callee_used_mask ra) (0 ∷ 1 ∷ 2 ∷ 3 ∷ []) in
          rw calls (
            sym (append_assoc (map Asm.pop (reverse regs)) (Asm.pop lr ∷ []) (Asm.pop fp ∷ []))
            ∙ ap (λ t. t ++ Asm.pop fp ∷ []) (sym (last_pop lr regs))
            ∙ sym (last_pop fp (lr ∷ regs)))
    ]

used-IsSavable :
    (callee : ℕ) (is : List ℕ)
    → All (λ i. i < 4) is
    → All (λ r. IsSavable r × ((r == fp) ≡ false)) (used callee is)
used-IsSavable callee [] h = tt
used-IsSavable callee (i ∷ is) h = elim (Bool-cases (is_used callee i)) [
  | inl here ↦ rw here (((omega arith, ground arith), ground arith), used-IsSavable callee is h.1)
  | inr skipped ↦ rw skipped (used-IsSavable callee is h.1)
]

abbrev IsKept : ℕ → Type 0
IsKept r = IsSavable r × ((r == fp) ≡ false)

pub saved-IsSavable : (func : Function) (ra : Regalloc) → All IsKept (saved_after_fp func ra)
saved-IsSavable func ra =
    let rest =
      used-IsSavable (callee_used_mask ra) (0 ∷ 1 ∷ 2 ∷ 3 ∷ [])
        (omega arith, (omega arith, (omega arith, (omega arith, tt)))) in
    elim (Bool-cases (function_is_leaf func)) [
      | inl leaf ↦ rw leaf rest
      | inr calls ↦ rw calls (((omega arith, refl), refl), rest)
    ]

pub kept-IsSavable : (rs : List ℕ) → All IsKept rs → All IsSavable rs
kept-IsSavable [] h = tt
kept-IsSavable (r ∷ rs) h = (h.0.0, kept-IsSavable rs h.1)

All-snoc : (P : ℕ → Type 0) (xs : List ℕ) (r : ℕ) → All P xs → P r → All P (xs ++ r ∷ [])
All-snoc P xs r h p = All-append P xs (r ∷ []) h (p, tt)

pub All-reverse : (P : ℕ → Type 0) (xs : List ℕ) → All P xs → All P (reverse xs)
All-reverse P [] h = tt
All-reverse P (x ∷ xs) h =
    subst (All P) (sym (reverse-cons x xs)) (All-snoc P (reverse xs) x (All-reverse P xs h.1) h.0)

-- The words of the frame above its slots.
abbrev pub saved_words : Function → Regalloc → ℕ
saved_words func ra = suc (length (saved_after_fp func ra))

-- The state after the saves and the allocation of the slots.
pub record IsFramed (func : Function) (ra : Regalloc) (regs mem : ℕ → ℕ) (flags : ℕ × ℕ)
    : Type 0 where
  pub after : ℕ → ℕ
  pub after_mem : ℕ → ℕ
  pub runs :
      exec (save_registers func ra ++ emit_sp_adj (minus (count_slots func))) (ready regs mem flags)
      ≡ ready after after_mem flags
  pub pointer : after sp ≡ regs sp - saved_words func ra - count_slots func
  pub frame : after fp ≡ regs sp - 1
  pub others : (k : ℕ) → 0 < k → (k == sp) ≡ false → (k == fp) ≡ false → after k ≡ regs k
  pub saved : AreSaved regs after_mem (regs sp) (fp ∷ saved_after_fp func ra)
  pub above : (a : ℕ) → regs sp ≤ a → after_mem a ≡ mem a

held :
    (regs new : ℕ → ℕ) (rs : List ℕ)
    → All IsKept rs
    → ((k : ℕ) → IsKept k → new k ≡ regs k)
    → All (λ r. new r ≡ regs r) rs
held regs new [] ok h = tt
held regs new (r ∷ rs) ok h = (h r ok.0, held regs new rs ok.1 h)

less : (x n : ℕ) → n ≤ x → x < 65536 → (x + word16 (minus n)) % 65536 ≡ x - n
less x zero le lt = omega arith
less x (suc n) le lt = omega arith

module _ (func : Function) (ra : Regalloc) (regs mem : ℕ → ℕ) (flags : ℕ × ℕ)
    (room : saved_words func ra + count_slots func ≤ regs sp) (small : regs sp < 65536) where
  abbrev with_frame : ℕ → ℕ
  with_frame = write (write regs sp (regs sp - 1)) fp (regs sp - 1)

  abbrev with_fp : ℕ → ℕ
  with_fp = write mem (regs sp - 1) (regs fp)

  first_runs :
      (code : List Asm)
      → exec (Asm.push fp ∷ Asm.mov fp sp ∷ code) (ready regs mem flags)
        ≡ exec code (ready with_frame with_fp flags)
  unfolding exec expand step
  first_runs code =
      push_runs fp (Asm.mov fp sp ∷ code) regs mem flags (omega arith, refl) (omega arith) small
      ∙ ap (λ w. exec code (ready (write (write regs sp (regs sp - 1)) fp w) with_fp flags))
          (omega arith)

  -- A register other than r0 and sp after an adjustment of sp.
  raw :
      {code : List Asm} {v : ℕ} {old new_mem : ℕ → ℕ} (p : Puts code [] sp v old new_mem flags)
      (k : ℕ)
      → 0 < k
      → (k == sp) ≡ false
      → p.after k ≡ old k
  raw p k h other = ground (arith, p.others k other refl)

  -- The prologue without its parameters.
  pub frame_opens : IsFramed func ra regs mem flags
  unfolding save_registers
  frame_opens =
      let pushed =
        pushes (saved_after_fp func ra) with_frame with_fp flags
          (kept-IsSavable _ (saved-IsSavable func ra)) (omega arith) (omega arith) in
      let moved =
        emit_sp_adj-Puts pushed.after_mem flags (minus (count_slots func)) pushed.after
          (omega (arith, pushed.pointer)) in
      record {
        after = moved.after;
        after_mem = pushed.after_mem;
        runs =
            exec-append (save_registers func ra) _ _
            ∙ ap (exec (emit_sp_adj (minus (count_slots func)))) (
                first_runs _
                ∙ ap (λ t. exec t (ready with_frame with_fp flags)) (save-map func ra)
                ∙ pushed.runs)
            ∙ moved.runs;
        pointer =
            moved.result
            ∙ less _ _ (omega (arith, pushed.pointer)) (omega (arith, pushed.pointer))
            ∙ omega (arith, pushed.pointer);
        frame = raw moved fp (omega arith) refl ∙ pushed.others fp refl;
        others =
            λ k h no_sp no_fp. raw moved k h no_sp ∙ pushed.others k no_sp ∙ rw (no_fp, no_sp) refl;
        saved = (
          pushed.above (regs sp - 1) (omega arith) ∙ ground arith,
          pushed.saved regs (
              held regs with_frame _ (saved-IsSavable func ra)
                (λ k kept. ground (arith, kept.0.1, kept.1))),
        );
        above = λ a h. pushed.above a (omega arith) ∙ ground arith;
      }
