-- ===== src/Codegen/Copies.antt =====
-- `copy_loop` as a whole.
use compilador.Prelude.{
  ℕ, zero, suc, ◌+◌, ◌<◌, ◌≤◌, ◌≡◌, refl, ap, sym, ◌∙◌, false, List, [], ◌∷◌, ◌++◌, if◌then◌else◌,
  inl, inr, arith, Bool-cases, length,
}
use compilador.Ir.Types.{Value}
use compilador.Codegen.Asm.{Asm}
use compilador.Codegen.Call.{ArgCopy, is_pending, redirect, first_pending, drain_loop, copy_loop}
use compilador.Codegen.Parallel.{copy_at, AreHeld}
use compilador.Codegen.Drains.{pending_count, IsRun, move_runs, drain_loop-IsDrained}
use compilador.Codegen.Cycles.{AreStuck, pending_count-redirect, unstuck, redirect-AreHeld}

pub pending_count-le_length : (cps : List ArgCopy) → pending_count cps ≤ length cps
pending_count-le_length [] = omega arith
pending_count-le_length (c ∷ cps) = ground (arith, pending_count-le_length cps)

none_pending : (cps : List ArgCopy) → pending_count cps ≤ 0 → first_pending cps ≡ []
none_pending [] h = refl
none_pending (c ∷ cps) h = elim (Bool-cases (is_pending c)) [
  | inl here ↦ absurd (ground arith)
  | inr later ↦ rw later (none_pending cps (ground arith))
]

cons_nil : {x : ℕ} → (x ∷ []) ≡ [] → ⊥
cons_nil q = cc

count_none : (cps : List ArgCopy) → first_pending cps ≡ [] → pending_count cps ≡ 0
count_none [] e = refl
count_none (c ∷ cps) e = elim (Bool-cases (is_pending c)) [
  | inl here ↦
      absurd (cons_nil (ap (λ b. if b then c.src ∷ [] else first_pending cps) (sym here) ∙ e))
  | inr later ↦ ground (
    arith,
    count_none cps (ap (λ b. if b then c.src ∷ [] else first_pending cps) (sym later) ∙ e),
  )
]

pub none_at :
    (cps : List ArgCopy)
    → first_pending cps ≡ []
    → (i : ℕ) → i < length cps
    → is_pending (copy_at cps i) ≡ false
none_at [] e i lt = absurd (omega arith)
none_at (c ∷ cps) e i lt = elim (Bool-cases (is_pending c)) [
  | inl here ↦
      absurd (cons_nil (ap (λ b. if b then c.src ∷ [] else first_pending cps) (sym here) ∙ e))
  | inr later ↦
      at i lt later (λ j below q. none_at cps q j below)
        (ap (λ b. if b then c.src ∷ [] else first_pending cps) (sym later) ∙ e)
]
  where
    at :
        (j : ℕ)
        → j < suc (length cps)
        → is_pending c ≡ false
        → ((k : ℕ) → k < length cps → first_pending cps ≡ [] → is_pending (copy_at cps k) ≡ false)
        → first_pending cps ≡ []
        → is_pending (copy_at (c ∷ cps) j) ≡ false
    at zero below p rest q = p
    at (suc j) below p rest q = rest j (omega arith) q

module _ (start mem : ℕ → ℕ) (flags : ℕ × ℕ) (orig : ℕ → Value) (want : ℕ → ℕ) (n : ℕ)
    (few : n ≤ 3) where
  -- Everything is copied.
  abbrev pub IsCopied : List ArgCopy × List Asm → Type 0
  IsCopied r = IsRun start mem flags orig want n r.0 r.1 × (first_pending r.0 ≡ [])

  stash :
      (cps : List ArgCopy) (out : List Asm) (r : ℕ)
      → AreStuck cps
      → IsRun start mem flags orig want n cps out
      → IsRun start mem flags orig want n (redirect r cps) (out ++ Asm.mov 7 r ∷ [])
  stash cps out r stuck run = record {
    regs = _;
    runs = move_runs start mem flags orig want n out 7 r run.regs run.words run.runs;
    held = redirect-AreHeld orig want n run.regs cps r few run.held stuck;
    words = λ k. ground (arith, run.words k, run.words r);
    kept = λ k low seven. ground arith ∙ run.kept k low seven;
  }

  after_drain :
      (fuel : ℕ) (st : List ArgCopy × List Asm) (firsts : List ℕ)
      → first_pending st.0 ≡ firsts
      → IsRun start mem flags orig want n st.0 st.1
      → ((r : ℕ) (rest : List ℕ)
          → first_pending st.0 ≡ r ∷ rest
          → IsCopied (copy_loop fuel (redirect r st.0) (st.1 ++ Asm.mov 7 r ∷ [])))
      → IsCopied (elim firsts [
        | [] ↦ st
        | r ∷ rest ↦ copy_loop fuel (redirect r st.0) (st.1 ++ Asm.mov 7 r ∷ [])
      ])
  after_drain fuel st [] e run next = (run, e)
  after_drain fuel st (r ∷ rest) e run next = next r rest e

  placed :
      (cps : List ArgCopy) (regs : ℕ → ℕ)
      → AreHeld orig want n regs cps
      → (i : ℕ) → i < length cps
      → (copy_at cps i).dst ≡ 1 + i
  placed cps regs h i lt = h.dsts i (omega (arith, h.size))

  -- From copies of which one can be made.
  copies_from :
      (fuel : ℕ) (cps : List ArgCopy) (out : List Asm)
      → pending_count cps ≤ fuel
      → (AreStuck cps → first_pending cps ≡ [])
      → IsRun start mem flags orig want n cps out
      → IsCopied (copy_loop fuel cps out)
  unfolding copy_loop
  copies_from zero cps out le ok run = (run, none_pending cps le)
  copies_from (suc fuel) cps out le ok run =
      let d =
        drain_loop-IsDrained start mem flags orig want n (length cps + 1) cps out
          (omega (arith, pending_count-le_length cps)) run in
      let st = drain_loop (length cps + 1) cps out in
      let stuck : AreStuck st.0 = λ l lt. d.stuck l (omega (arith, d.run.held.size)) in
      after_drain fuel st (first_pending st.0) refl d.run λ r rest e.
        copies_from fuel (redirect r st.0) (st.1 ++ Asm.mov 7 r ∷ [])
          (elim d.fewer [
            | inl fewer ↦ omega (arith, pending_count-redirect r st.0, fewer)
            | inr all_stuck ↦ omega (
              arith,
              pending_count-redirect r st.0,
              d.most,
              count_none cps (ok (λ l lt. all_stuck l (omega (arith, run.held.size)))),
            )
          ])
          (λ again. absurd (
            unstuck st.0 r rest (omega (arith, d.run.held.size)) (placed st.0 d.run.regs d.run.held)
              stuck e again))
          (stash st.0 st.1 r stuck d.run)

  -- From any copies, with one round more.
  pub copies_all :
      (fuel : ℕ) (cps : List ArgCopy) (out : List Asm)
      → pending_count cps ≤ fuel
      → IsRun start mem flags orig want n cps out
      → IsCopied (copy_loop (suc fuel) cps out)
  unfolding copy_loop
  copies_all fuel cps out le run =
      let d =
        drain_loop-IsDrained start mem flags orig want n (length cps + 1) cps out
          (omega (arith, pending_count-le_length cps)) run in
      let st = drain_loop (length cps + 1) cps out in
      let stuck : AreStuck st.0 = λ l lt. d.stuck l (omega (arith, d.run.held.size)) in
      after_drain fuel st (first_pending st.0) refl d.run λ r rest e.
        copies_from fuel (redirect r st.0) (st.1 ++ Asm.mov 7 r ∷ [])
          (omega (arith, pending_count-redirect r st.0, d.most))
          (λ again. absurd (
            unstuck st.0 r rest (omega (arith, d.run.held.size)) (placed st.0 d.run.regs d.run.held)
              stuck e again))
          (stash st.0 st.1 r stuck d.run)
