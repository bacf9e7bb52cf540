-- ===== src/Precolor/Pinned.antt =====
-- What the painter may pin, and to what.
use compilador.Prelude.{
  ℕ, zero, suc, ◌+◌, ◌≤◌, ◌<◌, ◌≡◌, ◌⊎◌, refl, ◌∙◌, Bool, true, false, ◌&&◌, ◌||◌, List, [], ◌∷◌,
  Option, none, some, arith, leb, ◌==◌, get_or, set, replicate, length, inl, inr, All, All-set,
  All-replicate, All-get_or_lt, length-set, length-replicate, if_either,
}
use compilador.VregSet.{VregSet, has}
use compilador.Ir.Types.{Value, vreg_of, is_vreg}
use compilador.Ir.Instr.{Instr, Function}
use compilador.Liveness.Result.{IrLiveness, instrs_of}
use compilador.Precolor.{
  Precolor, phys_none, phys_r1, at_most_args, call_args, is_call, is_ret, pin_params, pin,
  paint_ret, paint_result, paint_arg, paint_args, paint_step, paint, precolor_build, precolor_get,
}

-- Does the instruction return the register?
abbrev pub is_returned : Instr → ℕ → Bool
is_returned ins v = is_ret ins.op && is_vreg v ins.src0

abbrev pub returned : List Instr → ℕ → Bool
returned [] v = false
returned (ins ∷ rest) v = is_returned ins v || returned rest v

vreg_of-is_vreg : (x : Value) (v : ℕ) → vreg_of x ≡ some v → is_vreg v x ≡ true
vreg_of-is_vreg x v h = ground arith

-- A property that the writes of the painter keep: r1 to a register that is returned, and an argument
-- register to one that is not live across a call.
module _ (P : List ℕ → Type 0) (liv : IrLiveness) (cl : VregSet) (n : ℕ) (R : ℕ → Bool)
    (keep_ret : (color : List ℕ) (v : ℕ) → R v ≡ true → P color → P (set color v phys_r1))
    (keep_dead : (color : List ℕ) (v c : ℕ)
      → has cl v ≡ false
      → 1 ≤ c
      → c ≤ 3
      → P color
      → P (set color v c)) where
  paint_ret_keeps :
      (color : List ℕ) (ins : Instr)
      → ((v : ℕ) → is_returned ins v ≡ true → R v ≡ true)
      → P color
      → P (paint_ret color ins)
  unfolding paint_ret
  paint_ret_keeps color ins h p =
      if_either P (is_ret ins.op)
        (λ e. keeps (vreg_of ins.src0) (λ v f. h v (ground (arith, vreg_of-is_vreg ins.src0 v))))
        (λ _. p)
    where
      keeps : (o : Option ℕ) → ((v : ℕ) → o ≡ some v → R v ≡ true) → P (pin color o phys_r1)
      keeps none q = unfold pin in p
      keeps (some v) q = unfold pin in keep_ret color v (q v refl) p

  paint_result_keeps : (color : List ℕ) (v : Option ℕ) → P color → P (paint_result cl color v)
  unfolding paint_result
  paint_result_keeps color none p = p
  paint_result_keeps color (some v) p =
      if_either P (has cl v) (λ _. p)
        (λ dead. keep_dead color v phys_r1 dead (omega arith) (omega arith) p)

  paint_arg_keeps :
      (idx : ℕ) (args : List Value) (color : List ℕ) (i : ℕ) (v : Option ℕ)
      → i < 3
      → P color
      → P (paint_arg liv idx cl args n color i v)
  unfolding paint_arg
  paint_arg_keeps idx args color i none b p = p
  paint_arg_keeps idx args color i (some v) b p =
      if_either P (has cl v) (λ _. p)
        (λ dead.
          if_either P (get_or color v 0 == phys_none)
            (λ _.
              if_either P _ (λ _. p)
                (λ _. keep_dead color v (1 + i) dead (omega arith) (omega arith) p))
            (λ _. p))

  paint_args_keeps :
      (idx : ℕ) (args : List Value) (k : ℕ) (rest : List Value) (i : ℕ) (color : List ℕ)
      → k + i ≤ 3
      → P color
      → P (paint_args liv idx cl args n k rest i color)
  unfolding paint_args
  paint_args_keeps idx args zero rest i color b p = p
  paint_args_keeps idx args (suc k) [] i color b p = p
  paint_args_keeps idx args (suc k) (arg ∷ rest) i color b p =
      paint_args_keeps idx args k rest (i + 1) _ (omega arith)
        (paint_arg_keeps idx args color i (vreg_of arg) (omega arith) p)

  paint_step_keeps :
      (idx : ℕ) (color : List ℕ) (ins : Instr)
      → ((v : ℕ) → is_returned ins v ≡ true → R v ≡ true)
      → P color
      → P (paint_step liv idx cl n color ins)
  unfolding paint_step
  paint_step_keeps idx color ins h p =
      let q = paint_ret_keeps color ins h p in
      let args = call_args ins.op in
      if_either P (is_call ins.op)
        (λ _.
          paint_args_keeps idx args (at_most_args (length args)) args 0 _ (ground arith)
            (paint_result_keeps (paint_ret color ins) (vreg_of ins.dst) q))
        (λ _. q)

  paint_keeps :
      (idx : ℕ) (color : List ℕ) (is : List Instr)
      → ((v : ℕ) → returned is v ≡ true → R v ≡ true)
      → P color
      → P (paint liv idx cl n color is)
  unfolding paint
  paint_keeps idx color [] h p = p
  paint_keeps idx color (ins ∷ rest) h p =
      paint_keeps (idx + 1) (paint_step liv idx cl n color ins) rest (λ v r. h v (ground arith))
        (paint_step_keeps idx color ins (λ v r. h v (ground arith)) p)

-- `PHYS_NONE` or an argument register r1, r2, r3.
abbrev pub IsAbi : ℕ → Type 0
IsAbi c = (c ≡ phys_none) ⊎ ((1 ≤ c) × (c ≤ 3))

pin_params-IsAbi :
    (n i : ℕ) (color : List ℕ) → n + i ≤ 3 → All IsAbi color → All IsAbi (pin_params n i color)
unfolding pin_params
pin_params-IsAbi zero i color b h = h
pin_params-IsAbi (suc n) i color b h =
    pin_params-IsAbi n (i + 1) (set color i (1 + i)) (omega arith)
      (All-set IsAbi color i (1 + i) h (inr (omega arith, omega arith)))

length-pin_params : (n i : ℕ) (color : List ℕ) → length (pin_params n i color) ≡ length color
unfolding pin_params
length-pin_params zero i color = refl
length-pin_params (suc n) i color =
    length-pin_params n (i + 1) (set color i (1 + i)) ∙ length-set color i (1 + i)

-- Inversion of a successful build.
build-parts :
    (func : Function) (liv : IrLiveness) (p : Precolor)
    → precolor_build func liv ≡ some p
    → (func.next_vreg ≡ 0) × (p.n_vregs ≡ 0)
      ⊎ (p.n_vregs ≡ func.next_vreg)
        × (p.color
            ≡ paint liv 0 p.call_live func.next_vreg
                (pin_params
                  (at_most_args (length func.params))
                  0
                  (replicate func.next_vreg phys_none))
                (instrs_of func.blocks))
unfolding precolor_build
build-parts func liv p h = ground arith

-- In a result of `precolor_build`, a register of the function is fixed to r1, r2 or r3 or not at
-- all.
pub precolor_get-IsAbi :
    (func : Function) (liv : IrLiveness) (p : Precolor) (v : ℕ)
    → precolor_build func liv ≡ some p
    → v < p.n_vregs
    → IsAbi (precolor_get p v)
unfolding precolor_get
precolor_get-IsAbi func liv p v h lt = elim (build-parts func liv p h) [
  | inl empty ↦ absurd (omega (arith, empty.1))
  | inr (n, painted) ↦
      let params = at_most_args (length func.params) in
      let start = pin_params params 0 (replicate func.next_vreg phys_none) in
      let (abi, width) =
        paint_keeps (λ color. All IsAbi color × (length color ≡ func.next_vreg)) liv p.call_live
          func.next_vreg (λ _. true)
          (λ color w _ q. (
            All-set IsAbi color w 1 q.0 (inr (omega arith, omega arith)),
            length-set color w 1 ∙ q.1,
          ))
          (λ color w c _ lo hi q.
            (All-set IsAbi color w c q.0 (inr (lo, hi)), length-set color w c ∙ q.1))
          0 start (instrs_of func.blocks) (λ _ _. refl)
          (
            pin_params-IsAbi params 0 (replicate func.next_vreg phys_none) (ground arith)
                (All-replicate IsAbi func.next_vreg phys_none (inl refl)),
            length-pin_params params 0 (replicate func.next_vreg phys_none)
                ∙ length-replicate func.next_vreg phys_none,
          ) in
      rw (not_leb p.n_vregs v lt, painted) (All-get_or_lt IsAbi _ v 0 abi (omega (arith, n, width)))
]
  where
    not_leb : (n v : ℕ) → v < n → leb n v ≡ false
    not_leb n v h = ground arith
