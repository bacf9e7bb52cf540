-- ===== src/Codegen/Relaxed.antt =====
-- The relaxation of long branches (`relax_branches_once` of CodeGen/codegen.c), run on the machine.
use compilador.Prelude.{
  All-append, ℕ, zero, suc, ◌+◌, ◌≤◌, ◌≡◌, refl, ap, sym, subst, ◌∙◌, Bool, true, false, List, [],
  ◌∷◌, ◌++◌, Option, if◌then◌else◌, All, inl, inr, arith, Bool-cases, bytes_eq_iff,
}
use compilador.Codegen.Asm.{Asm, Cond, Label, LabelKind, always, label_eq, expand}
use compilador.Codegen.Emit.{label_in}
use compilador.Codegen.Machine.{Machine, Mode, holds, step, exec, sweep, is_seeking, run_lines}
use compilador.Codegen.Or.{exec-append}
use compilador.Codegen.Relax.{
  is_always, relaxed, relax_line, relax_lines, relax_loop, any_relax, needs_relaxing,
}

-- No trampoline of this number or a later one has the label.
abbrev pub IsOld : List ℕ → ℕ → Label → Type 0
IsOld name k l =
    (j : ℕ)
    → k ≤ j
    → (label_eq l (label_in LabelKind.relax_take name j) ≡ false)
      × (label_eq l (label_in LabelKind.relax_skip name j) ≡ false)

abbrev pub IsOldLine : List ℕ → ℕ → Asm → Type 0
IsOldLine name k (Asm.branch_to c l) = IsOld name k l
IsOldLine name k (Asm.jump l) = IsOld name k l
IsOldLine name k _ = Unit

abbrev pub IsOldMode : List ℕ → ℕ → Mode → Type 0
IsOldMode name k (Mode.seeking l) = IsOld name k l
IsOldMode name k Mode.going = Unit
IsOldMode name k Mode.left = Unit

label_eq_same : (l : Label) → label_eq l l ≡ true
unfolding label_eq
label_eq_same l = ground (arith, (bytes_eq_iff l.scope l.scope).1 refl)

apart :
    (name : List ℕ) (k : ℕ)
    → label_eq (label_in LabelKind.relax_skip name k) (label_in LabelKind.relax_take name k) ≡ false
unfolding label_eq
apart name k = refl

module _ (name : List ℕ) (k : ℕ) (l : Label) (old : IsOld name k l) (regs mem : ℕ → ℕ)
    (flags : ℕ × ℕ) (prefix : Option ℕ) where
  abbrev state : Mode → Machine
  state mode = record { regs = regs; mem = mem; flags = flags; prefix = prefix; mode = mode }

  conditional :
      (c : Cond) (mode : Mode)
      → IsOldMode name k mode
      → exec
          (Asm.branch_to c (label_in LabelKind.relax_take name k)
            ∷ Asm.branch_to always (label_in LabelKind.relax_skip name k)
            ∷ Asm.at_label (label_in LabelKind.relax_take name k)
            ∷ Asm.jump l
            ∷ Asm.at_label (label_in LabelKind.relax_skip name k)
            ∷ [])
          (state mode)
        ≡ exec (Asm.branch_to c l ∷ []) (state mode)
  unfolding exec expand step holds
  conditional c Mode.left h = refl
  conditional c (Mode.seeking t) h = rw ((h k (omega arith)).0, (h k (omega arith)).1) refl
  conditional c Mode.going h = elim (Bool-cases (holds c flags)) [
    | inl taken ↦
        rw (taken, label_eq_same (label_in LabelKind.relax_take name k), (old k (omega arith)).1)
          refl
    | inr falls ↦
        rw (falls, apart name k, label_eq_same (label_in LabelKind.relax_skip name k)) refl
  ]

  always_jumps :
      (mode : Mode)
      → exec (Asm.jump l ∷ []) (state mode) ≡ exec (Asm.branch_to always l ∷ []) (state mode)
  unfolding exec expand step holds
  always_jumps Mode.going = refl
  always_jumps Mode.left = refl
  always_jumps (Mode.seeking t) = refl

  -- The trampoline does what the branch does.
  trampoline :
      (c : Cond) (mode : Mode)
      → IsOldMode name k mode
      → exec (relaxed name k c l).0 (state mode) ≡ exec (Asm.branch_to c l ∷ []) (state mode)
  trampoline Cond.always mode h = always_jumps mode
  trampoline Cond.beq mode h = conditional Cond.beq mode h
  trampoline Cond.blt mode h = conditional Cond.blt mode h
  trampoline Cond.ble mode h = conditional Cond.ble mode h
  trampoline Cond.bleu mode h = conditional Cond.bleu mode h
  trampoline Cond.bletu mode h = conditional Cond.bletu mode h

module _ (name : List ℕ) where
  IsOld-mono : {k n : ℕ} (l : Label) → k ≤ n → IsOld name k l → IsOld name n l
  IsOld-mono l le old j above = old j (omega arith)

  IsOldLine-mono : {k n : ℕ} (line : Asm) → k ≤ n → IsOldLine name k line → IsOldLine name n line
  IsOldLine-mono (Asm.branch_to c l) le old = IsOld-mono l le old
  IsOldLine-mono (Asm.jump l) le old = IsOld-mono l le old
  IsOldLine-mono line le old = tt

  IsOldMode-mono : {k n : ℕ} (mode : Mode) → k ≤ n → IsOldMode name k mode → IsOldMode name n mode
  IsOldMode-mono (Mode.seeking l) le old = IsOld-mono l le old
  IsOldMode-mono Mode.going le old = tt
  IsOldMode-mono Mode.left le old = tt

  run_left :
      (lines : List Asm) (m : Machine) → m.mode ≡ Mode.left → (run_lines lines m).mode ≡ Mode.left
  run_left [] m h = h
  run_left (line ∷ lines) m h = run_left lines _ (rw h refl)

  -- What the machine looks for after a line is what it looked for before, or the line's target.
  line_mode :
      (k : ℕ) (line : Asm) (mode : Mode) (regs mem : ℕ → ℕ) (flags : ℕ × ℕ) (prefix : Option ℕ)
      → IsOldLine name k line
      → IsOldMode name k mode
      → IsOldMode name k
          (exec
            (line ∷ [])
            (record { regs = regs; mem = mem; flags = flags; prefix = prefix; mode = mode })).mode
  unfolding exec expand step
  line_mode k (Asm.branch_to c l) Mode.going regs mem flags prefix old h =
      elim (Bool-cases (holds c flags)) [ inl taken ↦ rw taken old | inr falls ↦ rw falls tt ]
  line_mode k (Asm.jump l) Mode.going regs mem flags prefix old h = old
  line_mode k line Mode.going regs mem flags prefix old h = tt
  line_mode k line Mode.left regs mem flags prefix old h =
      subst (IsOldMode name k) (sym (run_left (expand line) _ refl)) tt
  line_mode k (Asm.at_label l) (Mode.seeking t) regs mem flags prefix old h =
      elim (Bool-cases (label_eq t l)) [ inl found ↦ rw found tt | inr other ↦ rw other h ]
  line_mode k line (Mode.seeking t) regs mem flags prefix old h = h

  lines_mode :
      (k : ℕ) (lines : List Asm) (m : Machine)
      → All (IsOldLine name k) lines
      → IsOldMode name k m.mode
      → IsOldMode name k (exec lines m).mode
  unfolding exec
  lines_mode k [] m old h = h
  lines_mode k (line ∷ lines) m old h =
      lines_mode k lines _ old.1 (line_mode k line m.mode m.regs m.mem m.flags m.prefix old.0 h)

  take-IsOld : (k : ℕ) (kind : LabelKind) → IsOld name (k + 1) (label_in kind name k)
  unfolding label_eq
  take-IsOld k kind j above = (ground arith, ground arith)

  -- One line: what takes its place does the same, is as old as the next number, and the number grows.
  relaxed_next : (k : ℕ) (line : Asm) → k ≤ (relax_line name k line).1
  relaxed_next k (Asm.branch_to c l) = elim (Bool-cases (is_always c)) [
    | inl plain ↦ rw plain (omega arith)
    | inr bound ↦ rw bound (omega arith)
  ]
  relaxed_next k line = omega arith

  relaxed-IsOld :
      (k : ℕ) (line : Asm)
      → IsOldLine name k line
      → All (IsOldLine name (relax_line name k line).1) (relax_line name k line).0
  relaxed-IsOld k (Asm.branch_to c l) old = elim (Bool-cases (is_always c)) [
    | inl plain ↦ rw plain (old, tt)
    | inr bound ↦ rw bound (
      take-IsOld k LabelKind.relax_take,
      (take-IsOld k LabelKind.relax_skip, (tt, (IsOld-mono l (omega arith) old, (tt, tt)))),
    )
  ]
  relaxed-IsOld k (Asm.jump l) old = (old, tt)
  relaxed-IsOld k line old = (tt, tt)

  relaxed_runs :
      (k : ℕ) (line : Asm) (m : Machine)
      → IsOldLine name k line
      → IsOldMode name k m.mode
      → exec (relax_line name k line).0 m ≡ exec (line ∷ []) m
  relaxed_runs k (Asm.branch_to c l) m old h =
      trampoline name k l old m.regs m.mem m.flags m.prefix c m.mode h
  relaxed_runs k line m old h = refl

  abbrev IsSame : ℕ → List Asm → List Asm × ℕ → Type 0
  IsSame k lines out =
      (k ≤ out.1)
      × ((All (IsOldLine name out.1) out.0)
          × ((m : Machine) → IsOldMode name k m.mode → exec out.0 m ≡ exec lines m))

  one_line :
      (k : ℕ) (line : Asm) (flag : Bool)
      → IsOldLine name k line
      → IsSame k (line ∷ []) (if flag then relax_line name k line else (line ∷ [], k))
  one_line k line true old =
      (relaxed_next k line, (relaxed-IsOld k line old, λ m h. relaxed_runs k line m old h))
  one_line k line false old = (omega arith, ((old, tt), λ m h. refl))

  All-mono :
      {k n : ℕ} (lines : List Asm)
      → k ≤ n
      → All (IsOldLine name k) lines
      → All (IsOldLine name n) lines
  All-mono [] le old = tt
  All-mono (line ∷ lines) le old = (IsOldLine-mono line le old.0, All-mono lines le old.1)

  join-IsSame :
      (k : ℕ) (xs ys : List Asm) (first rest : List Asm × ℕ)
      → All (IsOldLine name k) xs
      → IsSame k xs first
      → IsSame first.1 ys rest
      → IsSame k (xs ++ ys) (first.0 ++ rest.0, rest.1)
  join-IsSame k xs ys first rest old p q = (
    omega (arith, p.0, q.0),
    (
      All-append (IsOldLine name rest.1) first.0 rest.0 (All-mono first.0 q.0 p.1.0) q.1.0,
      λ m h.
          exec-append first.0 rest.0 m
          ∙ ap (exec rest.0) (p.1.1 m h)
          ∙ q.1.1 (exec xs m) (IsOldMode-mono _ p.0 (lines_mode k xs m old h))
          ∙ sym (exec-append xs ys m),
    ),
  )

  relax_lines-IsSame :
      (program lines : List Asm) (idx k : ℕ)
      → All (IsOldLine name k) lines
      → IsSame k lines (relax_lines name program lines idx k)
  unfolding relax_lines
  relax_lines-IsSame program [] idx k old = (omega arith, (tt, λ m h. refl))
  relax_lines-IsSame program (line ∷ lines) idx k old =
      let first = one_line k line (needs_relaxing program idx line) old.0 in
      join-IsSame k (line ∷ []) lines _ _ (old.0, tt) first
        (relax_lines-IsSame program lines _ _ (All-mono lines first.0 old.1))

  relax_loop-runs :
      (iter k : ℕ) (program : List Asm) (m : Machine)
      → All (IsOldLine name k) program
      → IsOldMode name k m.mode
      → exec (relax_loop iter name program k) m ≡ exec program m
  unfolding relax_loop
  relax_loop-runs zero k program m old h = refl
  relax_loop-runs (suc iter) k program m old h = elim (Bool-cases (any_relax program program 0)) [
    | inr stable ↦ rw stable refl
    | inl more ↦
        let once = relax_lines-IsSame program program 0 k old in
        rw more
          (relax_loop-runs iter _ _ m once.1.0 (IsOldMode-mono m.mode once.0 h) ∙ once.1.1 m h)
  ]

  -- The relaxed program does what the program does, in every number of sweeps over its lines and
  -- after any number of rounds of relaxation: the machine ends in the same state, registers, memory,
  -- flags and the label it looks for. The targets of the program, and the label looked for at the
  -- start, are not labels of trampolines yet to come.
  pub relax_loop-sweep :
      (fuel iter k : ℕ) (program : List Asm) (m : Machine)
      → All (IsOldLine name k) program
      → IsOldMode name k m.mode
      → sweep fuel (relax_loop iter name program k) m ≡ sweep fuel program m
  unfolding sweep
  relax_loop-sweep zero iter k program m old h = refl
  relax_loop-sweep (suc fuel) iter k program m old h =
      let same = relax_loop-runs iter k program m old h in
      let next =
        relax_loop-sweep fuel iter k program (exec program m) old (lines_mode k program m old h) in
      ap (λ n. if is_seeking n.mode then sweep fuel (relax_loop iter name program k) n else n) same
      ∙ ap (λ n. if is_seeking (exec program m).mode then n else exec program m) next
