-- ===== src/Regalloc/Select/Propagate.antt =====
-- Phase 4: the colour of a node and that of its representative.
use compilador.Prelude.{
  ℕ, ◌<◌, ◌≡◌, refl, ◌∙◌, ap, sym, Bool, true, ◌||◌, List, [], ◌∷◌, arith, ◌==◌, if◌then◌else◌,
  get_or, set, length, length-set, get_or-set, Bool-cases, inl, inr, elem, if_either, ==_iff,
}
use compilador.Precolor.{phys_none}
use compilador.Regalloc.Neighbors.{get_alias}
use compilador.Regalloc.Select.{propagate}

module _ (alias : List ℕ) (n : ℕ) where
  abbrev step : List ℕ → ℕ → List ℕ
  step color v =
      if get_alias alias n v == v
      then color
      else set color v (get_or color (get_alias alias n v) phys_none)

  step_self :
      (color : List ℕ) (x : ℕ)
      → x < length color
      → get_or (step color x) x phys_none ≡ get_or color (get_alias alias n x) phys_none
  step_self color x lt =
      if_either (λ c. get_or c x phys_none ≡ get_or color (get_alias alias n x) phys_none)
        (get_alias alias n x == x)
        (λ root. ap (λ t. get_or color t phys_none) (sym ((==_iff _ _).0 root)))
        (λ _. get_or-set color x x _ phys_none lt ∙ rw ((==_iff x x).1 refl) refl)

  step-read :
      (color : List ℕ) (v x : ℕ)
      → v < length color
      → get_or (step color v) x phys_none ≡ (
          if v == x then get_or color (get_alias alias n x) phys_none else get_or color x phys_none)
  step-read color v x lt = elim (Bool-cases (v == x)) [
    | inl here ↦
        let e : v ≡ x = ground arith in
        ap (λ t. get_or (step color t) x phys_none) e
        ∙ step_self color x (rw e at lt)
        ∙ rw here refl
    | inr off ↦ rw off (
        if_either (λ c. get_or c x phys_none ≡ get_or color x phys_none) (get_alias alias n v == v)
          (λ _. refl) (λ _. get_or-set color v x _ phys_none lt ∙ rw off refl))
  ]

  close :
      (later : Bool) (u v c r a b : ℕ)
      → c ≡ r
      → a ≡ (if v == u then r else b)
      → (if later then c else a) ≡ (if u == v || later then r else b)
  close later u v c r a b p q = ground arith

  length-step : (color : List ℕ) (v : ℕ) → length (step color v) ≡ length color
  length-step color v =
      if_either (λ c. length c ≡ length color) (get_alias alias n v == v) (λ _. refl)
        (λ _. length-set color v _)

  pub propagate_lem :
      (vs color : List ℕ) (u : ℕ)
      → ((v : ℕ) → elem v vs ≡ true → v < length color)
      → get_alias alias n (get_alias alias n u) ≡ get_alias alias n u
      → get_or (propagate alias n vs color) u phys_none ≡ (
          if elem u vs
          then get_or color (get_alias alias n u) phys_none
          else get_or color u phys_none)
  unfolding propagate
  propagate_lem [] color u inside idem = refl
  propagate_lem (v ∷ vs) color u inside idem =
      let lt = inside v (ground arith) in
      let rest =
        propagate_lem vs (step color v) u
          (λ x m. rw (length-step color v) (inside x (ground arith))) idem in
      let kept =
        step-read color v (get_alias alias n u) lt
        ∙ if_either (λ c. c ≡ get_or color (get_alias alias n u) phys_none)
            (v == get_alias alias n u) (λ _. ap (λ t. get_or color t phys_none) idem) (λ _. refl) in
      rest ∙ close (elem u vs) u v _ _ _ _ kept (step-read color v u lt)
