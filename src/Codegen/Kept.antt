-- ===== src/Codegen/Kept.antt =====
-- Which registers a function has to keep, read from its calls and its colours, against the ones that
-- the prologue saves (sections 2 and 4 of CodeGen/codegen.c).
use compilador.Prelude.{
  ℕ, zero, suc, ◌+◌, ◌-◌, ◌^◌, ◌<◌, ◌≤◌, ◌≡◌, ◌≢◌, ◌⊎◌, ◌↔◌, refl, ap, sym, ◌∙◌, subst, bit_or,
  Bool, true, false, ◌&&◌, ◌||◌, List, [], ◌∷◌, ◌==◌, ==_iff, if◌then◌else◌, leb, inl, inr, arith,
  Bool-cases, length, elem, elem-append,
}
use compilador.Prelude.Bits.{bit, bit-bit_or, bit-pow, bit-zero, mask_test}
use compilador.Ir.Instr.{Op, Instr, Block, Function}
use compilador.Precolor.{phys_arg_regs, is_call}
use compilador.Spill.Reloads.{Any}
use compilador.Regalloc.Build.{Regalloc}
use compilador.Codegen.Asm.{fp, lr}
use compilador.Codegen.Registers.{color_of}
use compilador.Codegen.Frame.{
  is_callee_saved, mask_from, callee_used_mask, function_is_leaf, has_call, are_leaf, count_slots,
  needs_no_frame,
}
use compilador.Codegen.RoundTrip.{used, saved_after_fp, saved_words}

-- A call operation.
abbrev pub IsCall : Op → Type 0
IsCall (Op.call callee args is_void_call) = Unit
IsCall _ = ⊥

-- The function has a call in one of its blocks.
abbrev pub IsCaller : Function → Type 0
IsCaller func = Any (λ b. Any (λ i. IsCall i.op) b.instrs) func.blocks

-- A virtual register of the allocation has the colour `k`.
abbrev pub IsColored : Regalloc → ℕ → Type 0
IsColored ra k = (v : ℕ) × (v < ra.n_vregs) × (color_of ra v ≡ k)

-- The registers whose value the caller gets back: fp, lr where the function calls, and each of r8 to
-- r11 that a virtual register has.
abbrev pub MustKeep : Function → Regalloc → ℕ → Type 0
MustKeep func ra k = (k ≡ fp) ⊎ (((k ≡ lr) × IsCaller func) ⊎ ((8 ≤ k) × (k ≤ 11) × IsColored ra k))

pub clash : {b : Bool} → b ≡ false → b ≡ true → ⊥
clash p q = cc

is_call_iff : (op : Op) → (is_call op ≡ true) ↔ IsCall op
is_call_iff (Op.call callee args is_void_call) = ((λ h. tt), (λ h. refl))
is_call_iff _ = ((λ h. absurd (clash refl h)), (λ h. absurd h))

has_call-Any : (instrs : List Instr) → (has_call instrs ≡ true) ↔ Any (λ i. IsCall i.op) instrs
has_call-Any [] = ((λ h. absurd (clash refl h)), (λ h. absurd h))
has_call-Any (i ∷ instrs) = elim (Bool-cases (is_call i.op)) [
  | inl call ↦ rw call ((λ h. inl ((is_call_iff i.op).0 call)), (λ h. refl))
  | inr other ↦ rw other (
    (λ h. inr ((has_call-Any instrs).0 h)),
    (λ h. elim h [
      | inl here ↦ absurd (clash other ((is_call_iff i.op).1 here))
      | inr there ↦ (has_call-Any instrs).1 there
    ]),
  )
]

are_leaf-Any :
    (blocks : List Block)
    → (are_leaf blocks ≡ false) ↔ Any (λ b. Any (λ i. IsCall i.op) b.instrs) blocks
are_leaf-Any [] = ((λ h. absurd (clash h refl)), (λ h. absurd h))
are_leaf-Any (b ∷ blocks) = elim (Bool-cases (has_call b.instrs)) [
  | inl calls ↦ rw calls ((λ h. inl ((has_call-Any b.instrs).0 calls)), (λ h. refl))
  | inr none_here ↦ rw none_here (
    (λ h. inr ((are_leaf-Any blocks).0 h)),
    (λ h. elim h [
      | inl here ↦ absurd (clash none_here ((has_call-Any b.instrs).1 here))
      | inr there ↦ (are_leaf-Any blocks).1 there
    ]),
  )
]

-- One colour adds its own bit.
mark-bit :
    (mask c i : ℕ)
    → i < 4
    → bit (if is_callee_saved c then bit_or mask (2 ^ (c - 8)) else mask) i
      ≡ (bit mask i || (c == 8 + i))
mark-bit mask c i lt = elim (Bool-cases (is_callee_saved c)) [
  | inl callee ↦ rw callee (
      bit-bit_or mask (2 ^ (c - 8)) i
      ∙ ap (λ b. bit mask i || b) (bit-pow (c - 8) i ∙ ground arith))
  | inr other ↦ rw other (ground arith)
]

or_true : (a : Bool) → (a || true) ≡ true
or_true true = refl
or_true false = refl

or-cases : (a b : Bool) → (a || b) ≡ true → (a ≡ true) ⊎ (b ≡ true)
or-cases true b h = inl refl
or-cases false b h = inr h

module _ (ra : Regalloc) where
  -- A register among the `n` from `v` on has the colour `k`.
  abbrev IsBetween : ℕ → ℕ → ℕ → Type 0
  IsBetween n v k = (u : ℕ) × (v ≤ u) × (u < v + n) × (color_of ra u ≡ k)

  -- The bits of the mask are those it had and the colours of the registers from `v` on.
  mask_from-bit :
      (n v mask i : ℕ)
      → i < 4
      → (bit (mask_from n v ra mask) i ≡ true) ↔ ((bit mask i ≡ true) ⊎ IsBetween n v (8 + i))
  unfolding mask_from
  mask_from-bit zero v mask i lt =
      (inl, (λ h. elim h [ inl old ↦ old | inr found ↦ absurd (omega (arith, found.1, found.2)) ]))
  mask_from-bit (suc n) v mask i lt =
      let c = color_of ra v in
      let mark = mark-bit mask c i lt in
      let ih =
        mask_from-bit n (v + 1) (if is_callee_saved c then bit_or mask (2 ^ (c - 8)) else mask) i
          lt in
      (
        (λ h. elim (ih.0 h) [
          | inl old ↦ elim (or-cases _ _ (sym mark ∙ old)) [
            | inl set ↦ inl set
            | inr here ↦ inr (v, omega arith, omega arith, (==_iff c (8 + i)).0 here)
          ]
          | inr found ↦ inr (found.0, omega (arith, found.1), omega (arith, found.2), found.3)
        ]),
        (λ h. ih.1 (elim h [
          | inl old ↦ inl (mark ∙ rw old refl)
          | inr found ↦ elim (Bool-cases (c == 8 + i)) [
            | inl here ↦ inl (mark ∙ rw here (or_true (bit mask i)))
            | inr other ↦ elim (Bool-cases (found.0 == v)) [
              | inl same ↦
                  let at = (==_iff found.0 v).0 same in
                  absurd (clash other ((==_iff c (8 + i)).1 (ap (color_of ra) (sym at) ∙ found.3)))
              | inr apart ↦
                  let past : found.0 ≢ v = λ e. clash apart ((==_iff found.0 v).1 e) in
                  inr (found.0, omega (arith, found.1, past), omega (arith, found.2), found.3)
            ]
          ]
        ])),
      )

elem-used :
    (m k : ℕ) → elem k (used m (0 ∷ 1 ∷ 2 ∷ 3 ∷ [])) ≡ (leb 8 k && (leb k 11 && bit m (k - 8)))
elem-used m k = ground (arith, mask_test m 0, mask_test m 1, mask_test m 2, mask_test m 3)

callee_used_mask-bit :
    (ra : Regalloc) (i : ℕ) → i < 4 → (bit (callee_used_mask ra) i ≡ true) ↔ IsColored ra (8 + i)
unfolding callee_used_mask
callee_used_mask-bit ra i lt =
    let ih = mask_from-bit ra ra.n_vregs 0 0 i lt in
    (
      (λ h. elim (ih.0 h) [
        | inl old ↦ absurd (clash (bit-zero i) old)
        | inr found ↦ (found.0, omega (arith, found.2), found.3)
      ]),
      (λ h. ih.1 (inr (h.0, omega arith, omega (arith, h.1), h.2))),
    )

-- The callee-saved registers that are pushed.
used-IsColored :
    (ra : Regalloc) (k : ℕ)
    → (elem k (used (callee_used_mask ra) (0 ∷ 1 ∷ 2 ∷ 3 ∷ [])) ≡ true)
      ↔ ((8 ≤ k) × (k ≤ 11) × IsColored ra k)
used-IsColored ra k = (
  (λ h.
      let e = sym (elem-used (callee_used_mask ra) k) ∙ h in
      let low : 8 ≤ k = ground (arith, e) in
      let high : k ≤ 11 = ground (arith, e) in
      let set : bit (callee_used_mask ra) (k - 8) ≡ true = ground (arith, e) in
      let back : 8 + (k - 8) ≡ k = omega (arith, low) in
      (
        low,
        high,
        subst (IsColored ra) back
            ((callee_used_mask-bit ra (k - 8) (omega (arith, low, high))).0 set),
      )),
  (λ h.
      let back : k ≡ 8 + (k - 8) = omega (arith, h.0) in
      let set =
        (callee_used_mask-bit ra (k - 8) (omega (arith, h.0, h.1))).1
          (subst (IsColored ra) back h.2) in
      elem-used (callee_used_mask ra) k ∙ ground (arith, set, h.0, h.1)),
)

-- The link register, where it is pushed.
link-IsCaller :
    (func : Function) (k : ℕ)
    → (elem k (if function_is_leaf func then [] else lr ∷ []) ≡ true) ↔ ((k ≡ lr) × IsCaller func)
unfolding function_is_leaf
link-IsCaller func k = elim (Bool-cases (are_leaf func.blocks)) [
  | inl leaf ↦
      rw leaf (
        (λ h. absurd (clash refl h)),
        (λ h. absurd (clash ((are_leaf-Any func.blocks).1 h.1) leaf)),
      )
  | inr calls ↦
      rw calls
        ((λ h. (ground (arith, h), (are_leaf-Any func.blocks).0 calls)), (λ h. ground (arith, h.0)))
]

-- What the prologue saves is what the function has to keep.
pub saved-MustKeep :
    (func : Function) (ra : Regalloc) (k : ℕ)
    → (elem k (fp ∷ saved_after_fp func ra) ≡ true) ↔ MustKeep func ra k
saved-MustKeep func ra k =
    let link = if function_is_leaf func then [] else lr ∷ [] in
    let apart = elem-append k link (used (callee_used_mask ra) (0 ∷ 1 ∷ 2 ∷ 3 ∷ [])) in
    (
      (λ h. elim (or-cases _ _ h) [
        | inl frame ↦ inl ((==_iff k fp).0 frame)
        | inr rest ↦ elim (or-cases _ _ (sym apart ∙ rest)) [
          | inl here ↦ inr (inl ((link-IsCaller func k).0 here))
          | inr callee ↦ inr (inr ((used-IsColored ra k).0 callee))
        ]
      ]),
      (λ h. elim h [
        | inl frame ↦ rw ((==_iff k fp).1 frame) refl
        | inr (inl here) ↦ rw (apart, (link-IsCaller func k).1 here) (or_true (k == fp))
        | inr (inr callee) ↦
            rw (apart, (used-IsColored ra k).1 callee, or_true (elem k link)) (or_true (k == fp))
      ]),
    )

-- A frame is needed: a register other than fp is to be kept, or there are slots, or parameters on the
-- stack.
abbrev pub NeedsFrame : Function → Regalloc → Type 0
NeedsFrame func ra =
    ((k : ℕ) × (k ≢ fp) × MustKeep func ra k)
    ⊎ ((0 < count_slots func) ⊎ (phys_arg_regs < length func.params))

-- A mask with a bit is not zero.
mask-nonzero : (m k : ℕ) → bit m k ≡ true → (m == 0) ≡ false
mask-nonzero m k set = elim (Bool-cases (m == 0)) [
  | inl zero_mask ↦
      let e = (==_iff m 0).0 zero_mask in
      absurd (clash (bit-zero k) (sym (ap (λ t. bit t k) e) ∙ set))
  | inr other ↦ other
]

pub needs_no_frame-NeedsFrame :
    (func : Function) (ra : Regalloc) → NeedsFrame func ra → needs_no_frame func ra ≡ false
unfolding function_is_leaf
needs_no_frame-NeedsFrame func ra (inl (k, other, inl frame)) = absurd (other frame)
needs_no_frame-NeedsFrame func ra (inl (k, other, inr (inl link))) =
    rw ((are_leaf-Any func.blocks).1 link.1) refl
needs_no_frame-NeedsFrame func ra (inl (k, other, inr (inr callee))) =
    let set =
      (callee_used_mask-bit ra (k - 8) (omega (arith, callee.0, callee.1))).1
        (subst (IsColored ra) (omega (arith, callee.0)) callee.2) in
    ground (arith, mask-nonzero (callee_used_mask ra) (k - 8) set)
needs_no_frame-NeedsFrame func ra (inr (inl slots)) = ground (arith, slots)
needs_no_frame-NeedsFrame func ra (inr (inr params)) = ground (arith, params)

-- At most six words are saved.
pub saved_words-le : (func : Function) (ra : Regalloc) → saved_words func ra ≤ 6
saved_words-le func ra = ground arith
