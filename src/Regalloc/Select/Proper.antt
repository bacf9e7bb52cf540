-- ===== src/Regalloc/Select/Proper.antt =====
-- Phase 3: the colours of nodes that interfere.
use compilador.Prelude.{
  ℕ, ◌≤◌, ◌<◌, ◌≡◌, refl, ◌∙◌, ap, sym, Bool, true, false, not, ◌||◌, List, [], ◌∷◌, arith, ◌==◌,
  ==_iff, if◌then◌else◌, get_or, set, length, length-set, get_or-set, Bool-cases, inl, inr, elem,
  ids_from, elem-ids_from, if_either,
}
use compilador.Prelude.Bits.{bit}
use compilador.Interference.Matrix.{Ifg}
use compilador.Interference.Graph.{interferes, degree}
use compilador.Interference.Graph.Sync.{IsGraph, interferes_symm, interferes-lt}
use compilador.Precolor.{Precolor, phys_none, precolor_is_call_live}
use compilador.Regalloc.Neighbors.{get_alias}
use compilador.Regalloc.Neighbors.Read.{elem-read_neighbors}
use compilador.Regalloc.Select.{
  spill_color, is_register, forbidden_of, pref_normal, pref_callee, Colored, select_step, select,
}
use compilador.Regalloc.Select.Choice.{bit-forbidden_of, first_free-cases, IsChoice}

-- The registers that a node may get.
abbrev pub prefs_of : Precolor → ℕ → List ℕ
prefs_of pc v = if precolor_is_call_live pc v then pref_callee else pref_normal

Bool-clash : {b : Bool} → b ≡ false → b ≡ true → ⊥
Bool-clash p q = cc

module _ (junk : ℕ → ℕ) (g : Ifg) (pc : Precolor) (alias : List ℕ) (graph : IsGraph g)
    (small : (v : ℕ) → v < g.n → degree g v ≤ 512) (first : List ℕ) where
  abbrev rep : ℕ → ℕ
  rep v = get_alias alias g.n v

  abbrev of_rep : List ℕ → ℕ → ℕ
  of_rep color v = get_or color (rep v) phys_none

  -- Was the node without a colour at first?
  abbrev is_free : ℕ → Bool
  is_free v = get_or first v phys_none == phys_none

  -- Nodes of different classes that interfere share a register only if both had one from the start.
  abbrev IsApart : List ℕ → ℕ → ℕ → Type 0
  IsApart color u w =
      interferes g u w ≡ true
      → (rep u == rep w) ≡ false
      → is_register (of_rep color u) ≡ true
      → of_rep color u ≡ of_rep color w
      → (is_free (rep u) ≡ false) × (is_free (rep w) ≡ false)

  -- The colour that the node had, or one that it may get.
  abbrev is_allowed : ℕ → ℕ → Bool
  is_allowed v c = (c == get_or first v phys_none) || elem c (spill_color ∷ prefs_of pc v)

  pub record IsProper (color : List ℕ) : Type 0 where
    pub width : length color ≡ g.n
    pub since : (v : ℕ) → is_free v ≡ false → get_or color v phys_none ≡ get_or first v phys_none
    pub allowed : (v : ℕ) → is_allowed v (get_or color v phys_none) ≡ true
    pub apart : (u w : ℕ) → u < g.n → IsApart color u w

  -- A colour that is not forbidden differs from those of the neighbours of the class.
  not_forbidden :
      (color : List ℕ) (v u w : ℕ)
      → u < g.n
      → rep u ≡ v
      → interferes g u w ≡ true
      → is_register (of_rep color w) ≡ true
      → bit (forbidden_of junk g color alias g.n (ids_from 0 g.n) v) (of_rep color w) ≡ true
  not_forbidden color v u w lt r i reg =
      bit-forbidden_of junk g color alias g.n v (ids_from 0 g.n) u w
        (elem-ids_from 0 g.n u ∙ ground arith) r
        (elem-read_neighbors junk g u w graph lt (small u lt) ∙ i) reg

  chosen_bit :
      (mask : ℕ) (prefs : List ℕ) (c : ℕ)
      → IsChoice mask prefs c
      → is_register c ≡ true
      → bit mask c ≡ false
  chosen_bit mask prefs c (inl (m, free)) r = free
  chosen_bit mask prefs c (inr (s, all)) r = absurd (ground arith)

  set-IsApart :
      (color : List ℕ) (v c : ℕ) (prefs : List ℕ)
      → IsProper color
      → v < g.n
      → IsChoice (forbidden_of junk g color alias g.n (ids_from 0 g.n) v) prefs c
      → (u w : ℕ) → u < g.n
      → IsApart (set color v c) u w
  set-IsApart color v c prefs z lt choice u w lu i ne reg same =
      let read = λ (x : ℕ). get_or-set color v x c phys_none (omega (arith, z.width)) in
      let reg_c = chosen_bit _ prefs c choice in
      elim (Bool-cases (v == rep u)) [
        | inl at_u ↦
            let e_u : of_rep (set color v c) u ≡ c = rw (read (rep u), at_u) refl in
            let off : (v == rep w) ≡ false = ground arith in
            let e_w : of_rep (set color v c) w ≡ of_rep color w = rw (read (rep w), off) refl in
            let hit : c ≡ of_rep color w = sym e_u ∙ same ∙ e_w in
            let reg : is_register c ≡ true = rw e_u at reg in
            absurd (
              Bool-clash (reg_c reg)
                (ap (bit _) hit ∙ not_forbidden color v u w lu (ground arith) i (rw hit at reg)))
        | inr off_u ↦
            let e_u : of_rep (set color v c) u ≡ of_rep color u = rw (read (rep u), off_u) refl in
            let reg : is_register (of_rep color u) ≡ true = rw e_u at reg in
            elim (Bool-cases (v == rep w)) [
              | inl at_w ↦
                  let e_w : of_rep (set color v c) w ≡ c = rw (read (rep w), at_w) refl in
                  let hit : c ≡ of_rep color u = sym e_w ∙ sym same ∙ e_u in
                  let j = interferes_symm g w u ∙ i in
                  absurd (
                    Bool-clash (reg_c (ap is_register hit ∙ reg)) (
                      ap (bit _) hit
                      ∙ not_forbidden color v w u (interferes-lt g u w i) (ground arith) j reg))
              | inr off_w ↦ z.apart u w lu i ne reg (sym e_u ∙ same ∙ rw (read (rep w), off_w) refl)
            ]
      ]

  -- The node gets a register of its list or `REGALLOC_SPILL`.
  chosen-elem :
      (mask : ℕ) (prefs : List ℕ) (c : ℕ)
      → IsChoice mask prefs c
      → elem c (spill_color ∷ prefs) ≡ true
  chosen-elem mask prefs c (inl (m, free)) = ground arith
  chosen-elem mask prefs c (inr (s, all)) = ground arith

  allowed_chosen :
      (v x c d : ℕ)
      → v ≡ x
      → d ≡ c
      → elem c (spill_color ∷ prefs_of pc v) ≡ true
      → is_allowed x d ≡ true
  allowed_chosen v x c d e same m = rw (sym e, same) (ground arith)

  set-IsProper :
      (color : List ℕ) (v c : ℕ)
      → IsProper color
      → v < g.n
      → (get_or color v phys_none == phys_none) ≡ true
      → IsChoice (forbidden_of junk g color alias g.n (ids_from 0 g.n) v) (prefs_of pc v) c
      → IsProper (set color v c)
  set-IsProper color v c z lt blank choice =
      let read = λ (x : ℕ). get_or-set color v x c phys_none (omega (arith, z.width)) in
      let ok = chosen-elem _ (prefs_of pc v) c choice in
      record {
        width = length-set color v c ∙ z.width;
        since = λ x had. elim (Bool-cases (v == x)) [
          | inl here ↦
              let e : v ≡ x = ground arith in
              let old : get_or color x phys_none ≡ phys_none =
                rw e at ((==_iff (get_or color v phys_none) phys_none).0 blank) in
              absurd (Bool-clash had (ap (λ t. t == phys_none) (sym (z.since x had) ∙ old)))
          | inr other ↦ rw (read x, other) (z.since x had)
        ];
        allowed = λ x. elim (Bool-cases (v == x)) [
          | inl here ↦
              let e : v ≡ x = ground arith in allowed_chosen v x c _ e (rw (read x, here) refl) ok
          | inr other ↦ ap (is_allowed x) (rw (read x, other) refl) ∙ z.allowed x
        ];
        apart = set-IsApart color v c (prefs_of pc v) z lt choice;
      }

  pub select_step-IsProper :
      (st : Colored) (v : ℕ)
      → IsProper st.color
      → v < g.n
      → IsProper (select_step junk g pc alias g.n (ids_from 0 g.n) st v).color
  unfolding select_step
  select_step-IsProper st v z lt =
      if_either (λ (s : Colored). IsProper s.color) (not (rep v == v)) (λ _. z)
        (λ _.
          if_either (λ (s : Colored). IsProper s.color)
            (not (get_or st.color v phys_none == phys_none)) (λ _. z)
            (λ blank.
              set-IsProper st.color v _ z lt (ground arith) (first_free-cases _ (prefs_of pc v))))

  pub select-IsProper :
      (st : Colored) (vs : List ℕ)
      → IsProper st.color
      → ((v : ℕ) → elem v vs ≡ true → v < g.n)
      → IsProper (select junk g pc alias g.n (ids_from 0 g.n) st vs).color
  unfolding select
  select-IsProper st [] z inside = z
  select-IsProper st (v ∷ vs) z inside =
      select-IsProper (select_step junk g pc alias g.n (ids_from 0 g.n) st v) vs
        (select_step-IsProper st v z (inside v (ground arith))) (λ x m. inside x (ground arith))
