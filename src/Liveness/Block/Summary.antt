-- ===== src/Liveness/Block/Summary.antt =====
-- The two passes over a block, for `use` and `def` and for `live_after`, and how they agree.
use compilador.Prelude.{
  ℕ, ◌<◌, ◌≡◌, refl, ◌∙◌, ap, Bool, true, false, not, ◌&&◌, ◌||◌, List, [], ◌∷◌, Option, none, some,
  arith, ◌==◌, elem, Returns, Bool-cases, inl, inr,
}
use compilador.VregSet.{VregSet, init, has}
use compilador.VregSet.Laws.{IsSized, has-init, add-Returns, remove-Returns, copy-eq}
use compilador.Ir.Instr.{Instr}
use compilador.Liveness.Instr.{instr_get_def, instr_get_uses}
use compilador.Liveness.Block.{
  max_uses, UseDef, add_uses, add_def, use_def_step, block_use_def, remove_def, add_all, transfer,
  backward, block_live_after,
}

-- Does the instruction use, or define, the register?
abbrev pub uses : Instr → ℕ → Bool
uses i v = elem v (instr_get_uses i max_uses)

abbrev pub is_def : Option ℕ → ℕ → Bool
is_def none v = false
is_def (some d) v = d == v

abbrev pub defines : Instr → ℕ → Bool
defines i v = is_def (instr_get_def i) v

-- Used in the block before any definition; defined in the block.
abbrev pub used_first : List Instr → ℕ → Bool
used_first [] v = false
used_first (i ∷ is) v = uses i v || (not (defines i v) && used_first is v)

abbrev pub defined : List Instr → ℕ → Bool
defined [] v = false
defined (i ∷ is) v = defines i v || defined is v

-- Live before the instructions, where `out` is live after them.
abbrev pub live_before : List Instr → (ℕ → Bool) → ℕ → Bool
live_before [] out v = out v
live_before (i ∷ is) out v = uses i v || (live_before is out v && not (defines i v))

-- The registers of the instructions are below `c`.
abbrev pub AreBelow : ℕ → List Instr → Type 0
AreBelow c [] = Unit
AreBelow c (i ∷ is) =
    ((v : ℕ) → uses i v ≡ true → v < c) × ((v : ℕ) → defines i v ≡ true → v < c) × AreBelow c is

live_before-summary :
    (is : List Instr) (out : ℕ → Bool) (v : ℕ)
    → live_before is out v ≡ (used_first is v || (out v && not (defined is v)))
live_before-summary [] out v = ground arith
live_before-summary (i ∷ is) out v = ground (arith, live_before-summary is out v)

add_all-Returns :
    {c : ℕ} (s : VregSet) (vs : List ℕ)
    → IsSized c s
    → ((v : ℕ) → elem v vs ≡ true → v < c)
    → Returns (add_all s vs) λ t. IsSized c t × ((w : ℕ) → has t w ≡ (elem w vs || has s w))
unfolding add_all
add_all-Returns s [] z h = (s, refl, (z, λ w. refl))
add_all-Returns s (v ∷ vs) z h =
    let (t, run, (zt, mt)) = add-Returns s v z (h v (ground arith)) in
    let (u, run', (zu, mu)) = add_all-Returns t vs zt (λ w e. h w (ground arith)) in
    (u, rw run run', (zu, λ w. ground (arith, mt w, mu w)))

add_uses-Returns :
    {c : ℕ} (d s : VregSet) (vs : List ℕ)
    → IsSized c s
    → ((v : ℕ) → elem v vs ≡ true → v < c)
    → Returns
        (add_uses d s vs)
        λ t. IsSized c t × ((w : ℕ) → has t w ≡ ((elem w vs && not (has d w)) || has s w))
unfolding add_uses
add_uses-Returns d s [] z h = (s, refl, (z, λ w. refl))
add_uses-Returns d s (v ∷ vs) z h = elim (Bool-cases (has d v)) [
  | inl old ↦
      let (u, run', (zu, mu)) = add_uses-Returns d s vs z (λ w e. h w (ground arith)) in
      (u, rw old run', (zu, λ w. ground (arith, mu w, has_congr d v w)))
  | inr new ↦
      let (t, run, (zt, mt)) = add-Returns s v z (h v (ground arith)) in
      let (u, run', (zu, mu)) = add_uses-Returns d t vs zt (λ w e. h w (ground arith)) in
      (u, rw (new, run) run', (zu, λ w. ground (arith, mt w, mu w, has_congr d v w)))
]
  where
    has_congr : (d : VregSet) (v w : ℕ) → (w == v) ≡ true → has d w ≡ has d v
    has_congr d v w e = ap (has d) (ground arith)

add_def-Returns :
    {c : ℕ} (s : VregSet) (d : Option ℕ)
    → IsSized c s
    → ((v : ℕ) → is_def d v ≡ true → v < c)
    → Returns (add_def s d) λ t. IsSized c t × ((w : ℕ) → has t w ≡ (is_def d w || has s w))
unfolding add_def
add_def-Returns s none z h = (s, refl, (z, λ w. refl))
add_def-Returns s (some v) z h = add-Returns s v z (h v (ground arith))

remove_def-Returns :
    {c : ℕ} (s : VregSet) (d : Option ℕ)
    → IsSized c s
    → ((v : ℕ) → is_def d v ≡ true → v < c)
    → Returns
        (remove_def s d)
        λ t. IsSized c t × ((w : ℕ) → has t w ≡ (has s w && not (is_def d w)))
unfolding remove_def
remove_def-Returns s none z h = (s, refl, (z, λ w. ground arith))
remove_def-Returns s (some v) z h = remove-Returns s v z (h v (ground arith))

transfer-Returns :
    {c : ℕ} (s : VregSet) (i : Instr)
    → IsSized c s
    → ((v : ℕ) → uses i v ≡ true → v < c)
    → ((v : ℕ) → defines i v ≡ true → v < c)
    → Returns
        (transfer s i)
        λ t. IsSized c t × ((w : ℕ) → has t w ≡ (uses i w || (has s w && not (defines i w))))
unfolding transfer
transfer-Returns s i z hu hd =
    let (t, run, (zt, mt)) = remove_def-Returns s (instr_get_def i) z hd in
    let (u, run', (zu, mu)) = add_all-Returns t (instr_get_uses i max_uses) zt hu in
    (u, rw run run', (zu, λ w. rw (mu w, mt w) refl))

-- The sets after the instructions, in their order, where `out` is live after the last.
abbrev pub AreLiveAfter : ℕ → List Instr → (ℕ → Bool) → List VregSet → Type 0
AreLiveAfter c [] out sets = sets ≡ []
AreLiveAfter c (i ∷ is) out [] = ⊥
AreLiveAfter c (i ∷ is) out (s ∷ sets) =
    IsSized c s × ((v : ℕ) → has s v ≡ live_before is out v) × AreLiveAfter c is out sets

backward-Returns :
    {c : ℕ} (ncap : ℕ) (is : List Instr) (out : VregSet)
    → IsSized c (init ncap)
    → IsSized c out
    → AreBelow c is
    → Returns (backward ncap is out) λ r.
      IsSized c r.1
      × ((v : ℕ) → has r.1 v ≡ live_before is (has out) v)
      × AreLiveAfter c is (has out) r.0
unfolding backward
backward-Returns ncap [] out zi z h = (([], out), refl, (z, λ v. refl, refl))
backward-Returns ncap (i ∷ is) out zi z (hu, hd, rest) =
    let ((afters, cur), run, (zc, mc, ok_rest)) = backward-Returns ncap is out zi z rest in
    let (next, step, (zn, mn)) = transfer-Returns cur i zc hu hd in
    (
      (cur ∷ afters, next),
      rw (run, copy-eq (init ncap) cur zi zc, step) refl,
      (zn, λ v. rw (mn v, mc v) refl, (zc, mc, ok_rest)),
    )

-- Where the registers of the block are below the capacity of the sets, the pass over the block
-- ends normally and gives, for each instruction, the set of the registers that are live after it.
pub block_live_after-Returns :
    {c : ℕ} (ncap : ℕ) (is : List Instr) (out : VregSet)
    → IsSized c (init ncap)
    → IsSized c out
    → AreBelow c is
    → Returns (block_live_after ncap is out) (AreLiveAfter c is (has out))
unfolding block_live_after
block_live_after-Returns ncap is out zi z h =
    let (r, run, (_, _, sets)) = backward-Returns ncap is out zi z h in
    (r.0, rw (copy-eq (init ncap) out zi z, run) refl, sets)

-- Where the registers of the block are below the capacity of the sets, the forward pass over the
-- block ends normally. It adds to `use` the registers that are used before any definition and were
-- not in `def`, and to `def` the registers that are defined.
pub block_use_def-Returns :
    {c : ℕ} (bl : UseDef) (is : List Instr)
    → IsSized c bl.use_set
    → IsSized c bl.def_set
    → AreBelow c is
    → Returns (block_use_def bl is) λ r.
      IsSized c r.use_set
      × IsSized c r.def_set
      × ((v : ℕ)
          → has r.use_set v ≡ (has bl.use_set v || (not (has bl.def_set v) && used_first is v)))
      × ((v : ℕ) → has r.def_set v ≡ (has bl.def_set v || defined is v))
unfolding block_use_def use_def_step
block_use_def-Returns bl [] zu zd h = (bl, refl, (zu, zd, λ v. ground arith, λ v. ground arith))
block_use_def-Returns bl (i ∷ is) zu zd (hu, hd, rest) =
    let (u, run_u, (zu', mu)) =
      add_uses-Returns bl.def_set bl.use_set (instr_get_uses i max_uses) zu hu in
    let (d, run_d, (zd', md)) = add_def-Returns bl.def_set (instr_get_def i) zd hd in
    let (r, run, (zr, zs, mr, ms)) =
      block_use_def-Returns (record { use_set = u; def_set = d }) is zu' zd' rest in
    (
      r,
      rw (run_u, run_d) run,
      (zr, zs, λ v. ground (arith, mr v, mu v, md v), λ v. ground (arith, ms v, md v)),
    )

-- Where the registers of the block are below the capacity of the sets, both passes end normally,
-- and the registers that the backward pass leaves at the entry are those in `use` and those live
-- at the exit that are not in `def`, for `use` and `def` filled from empty sets.
pub use_def-eq-backward :
    {c : ℕ} (ncap : ℕ) (is : List Instr) (out : VregSet)
    → IsSized c (init ncap)
    → IsSized c out
    → AreBelow c is
    → Returns (block_use_def (record { use_set = init ncap; def_set = init ncap }) is) λ bl.
      Returns
        (backward ncap is out)
        λ r. (v : ℕ) → has r.1 v ≡ (has bl.use_set v || (has out v && not (has bl.def_set v)))
use_def-eq-backward ncap is out zi z h =
    let (bl, run, (_, _, mu, md)) =
      block_use_def-Returns (record { use_set = init ncap; def_set = init ncap }) is zi zi h in
    let (r, run', (_, mr, _)) = backward-Returns ncap is out zi z h in
    (
      bl,
      run,
      (
        r,
        run',
        λ v.
            mr v ∙ live_before-summary is (has out) v ∙ ground (arith, mu v, md v, has-init ncap v),
      ),
    )
