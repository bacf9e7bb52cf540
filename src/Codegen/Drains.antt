-- ===== src/Codegen/Drains.antt =====
-- The rounds of the parallel copy (`drain_loop`), and the copies that are left blocked.
use compilador.Prelude.{
  ℕ, zero, suc, ◌+◌, ◌<◌, ◌≤◌, ◌≡◌, ◌⊎◌, refl, ap, sym, subst, ◌∙◌, true, false, not, ◌&&◌, List,
  [], ◌∷◌, ◌++◌, leb, ◌==◌, if◌then◌else◌, inl, inr, arith, Bool-cases, length, set,
}
use compilador.Ir.Types.{Value}
use compilador.Codegen.Asm.{Asm, expand}
use compilador.Codegen.Machine.{ready, read_reg, write, step, exec}
use compilador.Codegen.Puts.{AreWords}
use compilador.Codegen.Or.{exec-append}
use compilador.Codegen.Call.{
  ArgCopy, is_pending, is_blocked, Drain, drain_step, drain_round, drain_loop,
}
use compilador.Codegen.Parallel.{copy_at, finish_copy, AreHeld, copied}

abbrev pub pending_count : List ArgCopy → ℕ
pending_count [] = 0
pending_count (c ∷ cps) = (if is_pending c then 1 else 0) + pending_count cps

pending_count-finish :
    (cps : List ArgCopy) (i : ℕ)
    → i < length cps
    → is_pending (copy_at cps i) ≡ true
    → suc (pending_count (set cps i (finish_copy (copy_at cps i)))) ≡ pending_count cps
pending_count-finish [] i lt p = absurd (omega arith)
pending_count-finish (c ∷ cps) zero lt p = ground arith
pending_count-finish (c ∷ cps) (suc i) lt p =
    omega (arith, pending_count-finish cps i (omega arith) p)

-- The copy at `j` waits for another, or for nothing.
abbrev pub IsStuck : List ArgCopy → ℕ → Type 0
IsStuck cps j = (is_pending (copy_at cps j) && not (is_blocked cps 0 j (copy_at cps j).dst)) ≡ false

module _ (start mem : ℕ → ℕ) (flags : ℕ × ℕ) (orig : ℕ → Value) (want : ℕ → ℕ) (n : ℕ) where
  -- The lines printed so far, run from the start, with the values of the copies.
  pub record IsRun (cps : List ArgCopy) (out : List Asm) : Type 0 where
    pub regs : ℕ → ℕ
    pub runs : exec out (ready start mem flags) ≡ ready regs mem flags
    pub held : AreHeld orig want n regs cps
    pub words : AreWords regs
    pub kept :
        (k : ℕ)
        → (leb 1 k && leb k n) ≡ false
        → (k == 7) ≡ false
        → read_reg regs k ≡ read_reg start k

  -- A state is as before and stuck from `i` to `j`, or has fewer pending copies and is marked.
  abbrev Outcome : ℕ → ℕ → Drain → Drain → Type 0
  Outcome i j st next =
      ((pending_count next.cps < pending_count st.cps) × (next.drained ≡ true))
      ⊎ ((next ≡ st) × ((l : ℕ) → i ≤ l → l < j → IsStuck st.cps l))

  pub move_runs :
      (out : List Asm) (dst src : ℕ) (regs : ℕ → ℕ)
      → AreWords regs
      → exec out (ready start mem flags) ≡ ready regs mem flags
      → exec (out ++ Asm.mov dst src ∷ []) (ready start mem flags)
        ≡ ready (write regs dst (read_reg regs src)) mem flags
  unfolding exec expand step
  move_runs out dst src regs words e =
      exec-append out (Asm.mov dst src ∷ []) (ready start mem flags)
      ∙ ap (exec (Asm.mov dst src ∷ [])) e
      ∙ ap (λ v. ready (write regs dst v) mem flags) (ground (arith, words src))

  drained :
      (i : ℕ) (st : Drain)
      → i < n
      → IsRun st.cps st.out
      → IsRun (drain_step i st).cps (drain_step i st).out × Outcome i (i + 1) st (drain_step i st)
  unfolding drain_step
  drained i st lt r =
      elim (Bool-cases
        (is_pending (copy_at st.cps i) && not (is_blocked st.cps 0 i (copy_at st.cps i).dst))) [
          | inl emits ↦
              let p : is_pending (copy_at st.cps i) ≡ true = ground arith in
              let free : is_blocked st.cps 0 i (copy_at st.cps i).dst ≡ false = ground arith in
              rw emits (
                record {
                  regs =
                      write r.regs (copy_at st.cps i).dst (read_reg r.regs (copy_at st.cps i).src);
                  runs = move_runs st.out _ _ r.regs r.words r.runs;
                  held = copied orig want n r.regs st.cps i r.held lt p free;
                  words = λ k. ground (arith, r.words k, r.words (copy_at st.cps i).src);
                  kept = λ k low seven. ground (arith, r.held.dsts i lt) ∙ r.kept k low seven;
                },
                inl (
                  omega (arith, pending_count-finish st.cps i (omega (arith, r.held.size)) p),
                  refl,
                ),
              )
          | inr stays ↦ rw stays (r, inr (refl, λ l low high. stuck_here l low high stays))
        ]
    where
      stuck_here : (l : ℕ) → i ≤ l → l < i + 1 → IsStuck st.cps i → IsStuck st.cps l
      stuck_here l low high h = subst (IsStuck st.cps) (omega arith) h

  join_outcomes :
      (i j : ℕ) (st next last : Drain)
      → Outcome i (i + 1) st next
      → Outcome (i + 1) j next last
      → Outcome i j st last
  join_outcomes i j st next last (inl a) (inl b) = inl (omega (arith, a.0, b.0), b.1)
  join_outcomes i j st next last (inl a) (inr b) =
      inl (omega (arith, a.0, ap (λ d. pending_count d.cps) b.0), ap (λ d. d.drained) b.0 ∙ a.1)
  join_outcomes i j st next last (inr a) (inl b) =
      inl (omega (arith, b.0, ap (λ d. pending_count d.cps) a.0), b.1)
  join_outcomes i j st next last (inr a) (inr b) = inr (
    b.0 ∙ a.0,
    λ l low high. elim (Bool-cases (l == i)) [
      | inl here ↦ a.1 l low (ground arith)
      | inr later ↦ subst (λ d. IsStuck d.cps l) a.0 (b.1 l (ground arith) high)
    ],
  )

  round :
      (k i : ℕ) (st : Drain)
      → i + k ≤ n
      → IsRun st.cps st.out
      → IsRun (drain_round k i st).cps (drain_round k i st).out
        × Outcome i (i + k) st (drain_round k i st)
  round zero i st le r = (r, inr (refl, λ l low high. absurd (omega arith)))
  round (suc k) i st le r =
      let one = drained i st (omega arith) r in
      let rest = round k (i + 1) (drain_step i st) (omega arith) one.0 in
      (
        rest.0,
        subst (λ j. Outcome i j st (drain_round k (i + 1) (drain_step i st))) (omega arith)
            (join_outcomes i (i + 1 + k) st _ _ one.1 rest.1),
      )

  -- The inner loop ends with every copy stuck, and with fewer of them pending unless all were stuck.
  pub record IsDrained (cps : List ArgCopy) (result : List ArgCopy × List Asm) : Type 0 where
    pub run : IsRun result.0 result.1
    pub stuck : (l : ℕ) → l < n → IsStuck result.0 l
    pub fewer : (pending_count result.0 < pending_count cps) ⊎ ((l : ℕ) → l < n → IsStuck cps l)
    pub most : pending_count result.0 ≤ pending_count cps

  -- After one round.
  round_IsDrained :
      (cps : List ArgCopy) (out : List Asm) (last : Drain) (more : List ArgCopy × List Asm)
      → length cps ≡ n
      → IsRun last.cps last.out
      → Outcome 0 (0 + length cps) (record { cps = cps; out = out; drained = false }) last
      → (pending_count last.cps < pending_count cps → IsDrained last.cps more)
      → IsDrained cps (if last.drained then more else (last.cps, last.out))
  round_IsDrained cps out last more size run (inl fewer) next =
      let rest = next fewer.0 in
      rw fewer.1 (record {
        run = rest.run;
        stuck = rest.stuck;
        fewer = inl (omega (arith, fewer.0, rest.most));
        most = omega (arith, fewer.0, rest.most);
      })
  round_IsDrained cps out last more size run (inr same) next =
      let unmarked : last.drained ≡ false = ap (λ d. d.drained) same.0 in
      let stuck : (l : ℕ) → l < n → IsStuck cps l =
        λ l lt. same.1 l (omega arith) (omega (arith, size)) in
      rw unmarked (record {
        run = run;
        stuck = λ l lt. subst (λ d. IsStuck d.cps l) (sym same.0) (stuck l lt);
        fewer = inr stuck;
        most = omega (arith, ap (λ d. pending_count d.cps) same.0);
      })

  pub drain_loop-IsDrained :
      (fuel : ℕ) (cps : List ArgCopy) (out : List Asm)
      → pending_count cps < fuel
      → IsRun cps out
      → IsDrained cps (drain_loop fuel cps out)
  unfolding drain_loop
  drain_loop-IsDrained zero cps out lt r = absurd (omega arith)
  drain_loop-IsDrained (suc fuel) cps out lt r =
      let once =
        round (length cps) 0 (record { cps = cps; out = out; drained = false })
          (omega (arith, r.held.size)) r in
      round_IsDrained cps out _ _ r.held.size once.0 once.1
        (λ fewer. drain_loop-IsDrained fuel _ _ (omega arith) once.0)
