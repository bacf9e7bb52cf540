-- ===== src/Codegen/Loaded.antt =====
-- The parameters on the stack: the loads at the end of `emit_prologue` (CodeGen/codegen.c), run on the
-- machine.
use compilador.Prelude.{
  ℕ, suc, ◌+◌, ◌-◌, ◌%◌, ◌<◌, ◌≤◌, ◌≡◌, ◌≢◌, ◌⊎◌, refl, ap, sym, subst, ◌∙◌, false, List, [], ◌∷◌,
  ◌==◌, ==_iff, leb, inl, inr, arith, Bool-cases, length, All, u32_max,
}
use compilador.Prelude.Int.{ℤ, pos, negsuc}
use compilador.Ir.Types.{IrType}
use compilador.Ir.Instr.{Function}
use compilador.Ir.Build.{find_slot}
use compilador.Regalloc.Build.{Regalloc}
use compilador.Codegen.Asm.{Asm, expand, t3, fp, word16}
use compilador.Codegen.Machine.{ready, write, step, exec}
use compilador.Codegen.Or.{exec-append}
use compilador.Codegen.Frame.{frame_access, load_params, slot_fp_offset, count_slots}
use compilador.Codegen.RoundTrip.{saved_words}
use compilador.Codegen.Kept.{clash}
use compilador.Codegen.Slots.{slot_fp_offset-below}

module _ (regs mem : ℕ → ℕ) (flags : ℕ × ℕ) where
  frame_load_runs :
      (off : ℤ)
      → exec (frame_access Asm.lw off) (ready regs mem flags)
        ≡ ready (write regs t3 (mem ((regs fp + word16 off) % 65536))) mem flags
  unfolding exec expand step
  frame_load_runs (pos n) = elim (Bool-cases (leb n 7)) [
    | inl small ↦ rw small (ap (λ a. ready (write regs t3 (mem a)) mem flags) (ground arith))
    | inr large ↦ rw large (ap (λ a. ready (write regs t3 (mem a)) mem flags) (ground arith))
  ]
  frame_load_runs (negsuc n) = elim (Bool-cases (leb n 7)) [
    | inl small ↦ rw small (ap (λ a. ready (write regs t3 (mem a)) mem flags) (ground arith))
    | inr large ↦ rw large (ap (λ a. ready (write regs t3 (mem a)) mem flags) (ground arith))
  ]

  frame_store_runs :
      (off : ℤ)
      → exec (frame_access Asm.sw off) (ready regs mem flags)
        ≡ ready regs (write mem ((regs fp + word16 off) % 65536) (regs t3)) flags
  unfolding exec expand step
  frame_store_runs (pos n) = elim (Bool-cases (leb n 7)) [
    | inl small ↦ rw small (ap (λ a. ready regs (write mem a (regs t3)) flags) (ground arith))
    | inr large ↦ rw large (ap (λ a. ready regs (write mem a (regs t3)) flags) (ground arith))
  ]
  frame_store_runs (negsuc n) = elim (Bool-cases (leb n 7)) [
    | inl small ↦ rw small (ap (λ a. ready regs (write mem a (regs t3)) flags) (ground arith))
    | inr large ↦ rw large (ap (λ a. ready regs (write mem a (regs t3)) flags) (ground arith))
  ]

module _ (func : Function) (ra : Regalloc) where
  -- The slot of a parameter is one of the frame's, and no later parameter has the same.
  abbrev pub HasOwnSlots : List (List ℕ × IrType) → Type 0
  HasOwnSlots [] = Unit
  HasOwnSlots ((name, type) ∷ params) =
      (find_slot func name ≡ u32_max
        ⊎ ((find_slot func name < count_slots func)
            × All (λ p. find_slot func p.0 ≢ find_slot func name) params))
      × HasOwnSlots params

  -- Each parameter that has a slot has there the word that the caller left, the first at `from`.
  abbrev pub AreLoaded : (ℕ → ℕ) → (ℕ → ℕ) → ℕ → ℕ → List (List ℕ × IrType) → Type 0
  AreLoaded new mem top from [] = Unit
  AreLoaded new mem top from ((name, type) ∷ params) =
      (find_slot func name ≡ u32_max
        ⊎ (new (top - saved_words func ra - (find_slot func name + 1)) ≡ mem from))
      × AreLoaded new mem top (from + 1) params

  -- The address is that of no parameter's slot.
  abbrev pub IsOutside : ℕ → ℕ → List (List ℕ × IrType) → Type 0
  IsOutside top a params =
      All
        (λ p.
          (find_slot func p.0 ≡ u32_max)
          ⊎ (a ≢ top - saved_words func ra - (find_slot func p.0 + 1)))
        params

  -- Slots that differ are words that differ.
  apart-IsOutside :
      (top slot : ℕ) (params : List (List ℕ × IrType))
      → saved_words func ra + count_slots func ≤ top
      → slot < count_slots func
      → All (λ p. find_slot func p.0 ≢ slot) params
      → HasOwnSlots params
      → IsOutside top (top - saved_words func ra - (slot + 1)) params
  apart-IsOutside top slot [] room lt differ own = tt
  apart-IsOutside top slot ((name, type) ∷ params) room lt differ own = (
    elim own.0 [
      | inl absent ↦ inl absent
      | inr here ↦ inr (λ e. differ.0 (omega (arith, e, here.0)))
    ],
    apart-IsOutside top slot params room lt differ.1 own.1,
  )

  -- The words from the saved ones on are no slots.
  pub above-IsOutside :
      (top a : ℕ) (params : List (List ℕ × IrType))
      → saved_words func ra + count_slots func ≤ top
      → top - saved_words func ra ≤ a
      → HasOwnSlots params
      → IsOutside top a params
  above-IsOutside top a [] room le own = tt
  above-IsOutside top a ((name, type) ∷ params) room le own = (
    elim own.0 [
      | inl absent ↦ inl absent
      | inr here ↦ inr (λ e. absurd (omega (arith, e, here.0)))
    ],
    above-IsOutside top a params room le own.1,
  )

  -- The caller's words are read from either memory.
  pub AreLoaded-agree :
      (new mem other : ℕ → ℕ) (top from : ℕ) (params : List (List ℕ × IrType))
      → ((a : ℕ) → from ≤ a → other a ≡ mem a)
      → AreLoaded new other top from params
      → AreLoaded new mem top from params
  AreLoaded-agree new mem other top from [] same h = tt
  AreLoaded-agree new mem other top from ((name, type) ∷ params) same h = (
    elim h.0 [ inl absent ↦ inl absent | inr word ↦ inr (word ∙ same from (omega arith)) ],
    AreLoaded-agree new mem other top (from + 1) params (λ a le. same a (omega arith)) h.1,
  )

  pub record IsFilled (params : List (List ℕ × IrType)) (off top : ℕ) (regs mem : ℕ → ℕ)
      (flags : ℕ × ℕ) : Type 0 where
    pub after : ℕ → ℕ
    pub after_mem : ℕ → ℕ
    pub runs :
        exec (load_params params off func ra) (ready regs mem flags) ≡ ready after after_mem flags
    pub others : (k : ℕ) → (k == t3) ≡ false → after k ≡ regs k
    pub outside : (a : ℕ) → IsOutside top a params → after_mem a ≡ mem a
    pub loaded : AreLoaded after_mem mem top (top - 1 + off) params

  -- The load and the store of one parameter, before the others.
  stored-IsFilled :
      (name : List ℕ) (type : IrType) (params : List (List ℕ × IrType)) (off top : ℕ)
      (regs mem : ℕ → ℕ) (flags : ℕ × ℕ)
      → saved_words func ra + count_slots func ≤ top
      → top + off + suc (length params) ≤ 65537
      → 1 ≤ off
      → regs fp ≡ top - 1
      → HasOwnSlots params
      → (find_slot func name == u32_max) ≡ false
      → find_slot func name < count_slots func
      → All (λ p. find_slot func p.0 ≢ find_slot func name) params
      → ((regs1 mem1 : ℕ → ℕ) → regs1 fp ≡ top - 1 → IsFilled params (off + 1) top regs1 mem1 flags)
      → IsFilled ((name, type) ∷ params) off top regs mem flags
  unfolding load_params
  stored-IsFilled name type params off top regs mem flags room small from frame own there lt differ
        more =
      let slot = find_slot func name in
      let word = top - saved_words func ra - (slot + 1) in
      let read : (regs fp + word16 (pos off)) % 65536 ≡ top - 1 + off = omega (arith, frame) in
      let v = mem ((regs fp + word16 (pos off)) % 65536) in
      let regs1 : ℕ → ℕ = write regs t3 v in
      let at = (regs fp + word16 (slot_fp_offset slot func ra)) % 65536 in
      let place : at ≡ word =
        ap (λ b. (b + word16 (slot_fp_offset slot func ra)) % 65536) frame
        ∙ (slot_fp_offset-below func ra top slot room (omega arith) lt).0 in
      let mem1 : ℕ → ℕ = write mem at v in
      let rest = more regs1 mem1 frame in
      let kept : (a : ℕ) → a ≢ word → mem1 a ≡ mem a = λ a other. ground (arith, other, place) in
      record {
        after = rest.after;
        after_mem = rest.after_mem;
        runs = rw there (
            exec-append (frame_access Asm.lw (pos off)) _ _
            ∙ ap (exec _) (frame_load_runs regs mem flags (pos off))
            ∙ exec-append (frame_access Asm.sw (slot_fp_offset slot func ra)) _ _
            ∙ ap (exec _) (frame_store_runs regs1 mem flags (slot_fp_offset slot func ra))
            ∙ rest.runs);
        others = λ k h. rest.others k h ∙ rw h refl;
        outside = λ a h. rest.outside a h.1 ∙ elim h.0 [
          | inl absent ↦ absurd (clash there ((==_iff _ _).1 absent))
          | inr other ↦ kept a other
        ];
        loaded = (
          inr (
              rest.outside word (apart-IsOutside top slot params room lt differ own)
              ∙ rw ((==_iff word at).1 (sym place)) (ap mem read)),
          subst (λ f. AreLoaded rest.after_mem mem top f params) (omega arith)
              (AreLoaded-agree rest.after_mem mem mem1 top (top - 1 + (off + 1)) params
                (λ a le. kept a (omega arith)) rest.loaded),
        );
      }

  pub load_params-IsFilled :
      (params : List (List ℕ × IrType)) (off top : ℕ) (regs mem : ℕ → ℕ) (flags : ℕ × ℕ)
      → saved_words func ra + count_slots func ≤ top
      → top + off + length params ≤ 65537
      → 1 ≤ off
      → regs fp ≡ top - 1
      → HasOwnSlots params
      → IsFilled params off top regs mem flags
  unfolding load_params exec
  load_params-IsFilled [] off top regs mem flags room small from frame own = record {
    after = regs;
    after_mem = mem;
    runs = refl;
    others = λ k h. refl;
    outside = λ a h. refl;
    loaded = tt;
  }
  load_params-IsFilled ((name, type) ∷ params) off top regs mem flags room small from frame own =
      elim (Bool-cases (find_slot func name == u32_max)) [
        | inl absent ↦
            let rest =
              load_params-IsFilled params (off + 1) top regs mem flags room (omega arith)
                (omega arith) frame own.1 in
            record {
              after = rest.after;
              after_mem = rest.after_mem;
              runs = rw absent rest.runs;
              others = rest.others;
              outside = λ a h. rest.outside a h.1;
              loaded = (
                inl ((==_iff _ _).0 absent),
                subst (λ f. AreLoaded rest.after_mem mem top f params) (omega arith) rest.loaded,
              );
            }
        | inr there ↦ elim own.0 [
          | inl absent ↦ absurd (clash there ((==_iff _ _).1 absent))
          | inr here ↦
              stored-IsFilled name type params off top regs mem flags room small from frame own.1
                there here.0 here.1
                (λ regs1 mem1 h.
                  load_params-IsFilled params (off + 1) top regs1 mem1 flags room (omega arith)
                    (omega arith) h own.1)
        ]
      ]
