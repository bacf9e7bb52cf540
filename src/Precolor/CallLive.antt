-- ===== src/Precolor/CallLive.antt =====
-- The set of registers that are live across a call.
use compilador.Prelude.{
  ℕ, ◌+◌, ◌<◌, ◌≡◌, refl, Bool, true, false, ◌&&◌, ◌||◌, List, [], ◌∷◌, arith, ltb, Bool-cases, inl,
  inr, Returns,
}
use compilador.VregSet.{VregSet, has, union_into}
use compilador.VregSet.Laws.{IsSized, remove-Returns}
use compilador.VregSet.Union.{union_into-IsSized, has-union_into}
use compilador.Ir.Types.{Value, vreg_of, is_vreg}
use compilador.Ir.Instr.{Instr}
use compilador.Liveness.Result.{IrLiveness}
use compilador.Precolor.{is_call, live_after_at, remove_result, scout_step, scout}

-- Is the register the result of a call?
abbrev pub is_result : Instr → ℕ → Bool
is_result ins v = is_call ins.op && is_vreg v ins.dst

abbrev pub is_some_result : List Instr → ℕ → Bool
is_some_result [] v = false
is_some_result (ins ∷ rest) v = is_result ins v || is_some_result rest v

-- Is the register live after one of the calls, the instructions being numbered from `idx`?
abbrev pub is_live_after_call : IrLiveness → ℕ → List Instr → ℕ → Bool
is_live_after_call liv idx [] v = false
is_live_after_call liv idx (ins ∷ rest) v =
    (is_call ins.op && (ltb idx liv.n_instrs && has (live_after_at liv idx) v))
    || is_live_after_call liv (idx + 1) rest v

remove_result-Returns :
    {c : ℕ} (s : VregSet) (x : Value)
    → IsSized c s
    → ((v : ℕ) → is_vreg v x ≡ true → v < c)
    → Returns
        (remove_result s (vreg_of x))
        λ t. IsSized c t × ((v : ℕ) → is_vreg v x ≡ false → has t v ≡ has s v)
unfolding remove_result
remove_result-Returns s (Value.vreg v type) z h =
    let (t, run, (zt, mt)) = remove-Returns s v z (h v (ground arith)) in
    (t, run, (zt, λ w other. ground (arith, mt w)))
remove_result-Returns s (Value.slot k type) z h = (s, refl, (z, λ w _. refl))
remove_result-Returns s (Value.global k type) z h = (s, refl, (z, λ w _. refl))
remove_result-Returns s (Value.imm k type) z h = (s, refl, (z, λ w _. refl))
remove_result-Returns s (Value.label k) z h = (s, refl, (z, λ w _. refl))
remove_result-Returns s Value.no_value z h = (s, refl, (z, λ w _. refl))

module _ {c : ℕ} (liv : IrLiveness)
    (sized : (i : ℕ) → i < liv.n_instrs → IsSized c (live_after_at liv i)) where
  scout_step-Returns :
      (idx : ℕ) (s : VregSet) (ins : Instr)
      → IsSized c s
      → ((v : ℕ) → is_result ins v ≡ true → v < c)
      → Returns (scout_step liv idx s ins) λ t.
        IsSized c t
        × ((v : ℕ)
            → is_result ins v ≡ false
            → has t v ≡ (
                (is_call ins.op && (ltb idx liv.n_instrs && has (live_after_at liv idx) v))
                || has s v))
  unfolding scout_step
  scout_step-Returns idx s ins z h = elim (Bool-cases (is_call ins.op)) [
    | inr plain ↦ (s, rw plain refl, (z, λ v _. rw plain refl))
    | inl call ↦ elim (Bool-cases (ltb idx liv.n_instrs)) [
      | inr beyond ↦ (s, rw (call, beyond) refl, (z, λ v _. rw (call, beyond) refl))
      | inl within ↦
          let la = live_after_at liv idx in
          let zl = sized idx (ground arith) in
          let (t, run, (zt, mt)) =
            remove_result-Returns (union_into s la).0 ins.dst (union_into-IsSized s la z zl)
              (λ v e. h v (ground arith)) in
          (
            t,
            rw (call, within) run,
            (zt, λ v other. rw (call, within) (ground (arith, mt v, has-union_into s la v z zl))),
          )
    ]
  ]

  -- For live sets of one capacity, above the results of the calls, the scout ends normally. A
  -- register that is the result of no call is then in `call_live` exactly when it was there before
  -- or is live after some call.
  pub scout-Returns :
      (idx : ℕ) (s : VregSet) (is : List Instr)
      → IsSized c s
      → ((v : ℕ) → is_some_result is v ≡ true → v < c)
      → Returns (scout liv idx s is) λ t.
        IsSized c t
        × ((v : ℕ)
            → is_some_result is v ≡ false
            → has t v ≡ (is_live_after_call liv idx is v || has s v))
  unfolding scout
  scout-Returns idx s [] z h = (s, refl, (z, λ v _. refl))
  scout-Returns idx s (ins ∷ rest) z h =
      let (t, run, (zt, mt)) = scout_step-Returns idx s ins z (λ v e. h v (ground arith)) in
      let (u, run', (zu, mu)) = scout-Returns (idx + 1) t rest zt (λ v e. h v (ground arith)) in
      (u, rw run run', (zu, λ v other. ground (arith, mt v, mu v)))
