-- ===== src/Regalloc/Select/Covers.antt =====
-- Phase 3: which nodes have a colour at its end, and the spill count.
use compilador.Prelude.{
  ℕ, suc, ◌+◌, ◌<◌, ◌≡◌, refl, ◌∙◌, ap, sym, Bool, true, false, not, ◌&&◌, List, [], ◌∷◌, arith,
  ◌==◌, ==_iff, if◌then◌else◌, get_or, set, length, length-set, get_or-set, Bool-cases, inl, inr,
  elem, if_either, count_below, count_below_congr, count_below-out,
}
use compilador.Interference.Matrix.{Ifg}
use compilador.Precolor.{Precolor, phys_none, precolor_is_call_live}
use compilador.Regalloc.Neighbors.{get_alias}
use compilador.Regalloc.Select.{
  spill_color, first_free, pref_normal, pref_callee, Colored, select_step, select,
}
use compilador.Regalloc.Select.Choice.{first_free-cases}

abbrev pub is_blank : List ℕ → ℕ → Bool
is_blank color v = get_or color v phys_none == phys_none

-- The representatives that were coloured `REGALLOC_SPILL`.
abbrev pub is_spilled_rep : List ℕ → ℕ → List ℕ → ℕ → Bool
is_spilled_rep alias n color v =
    (get_alias alias n v == v) && (get_or color v phys_none == spill_color)

member_not_blank :
    (cl : Bool) (c : ℕ)
    → elem c (if cl then pref_callee else pref_normal) ≡ true
    → (c == phys_none) ≡ false
member_not_blank true c m = ground arith
member_not_blank false c m = ground arith

plus_one : (a b : ℕ) → a ≡ b → a + 1 ≡ suc b
plus_one a b e = omega (arith, e)

module _ (junk : ℕ → ℕ) (g : Ifg) (pc : Precolor) (alias : List ℕ) (n : ℕ) (ids : List ℕ) where
  -- What a step does: nothing, or a colour for a node that had none.
  record IsStep (v : ℕ) (st next : Colored) : Type 0 where
    kept :
        (x : ℕ)
        → is_blank st.color x ≡ false
        → get_or next.color x phys_none ≡ get_or st.color x phys_none
    filled : (get_alias alias n v == v) ≡ true → is_blank next.color v ≡ false
    width : length next.color ≡ length st.color
    tally :
        st.n_spills ≡ count_below n (is_spilled_rep alias n st.color)
        → next.n_spills ≡ count_below n (is_spilled_rep alias n next.color)

  choice_not_blank :
      (mask : ℕ) (cl : Bool)
      → (first_free mask (if cl then pref_callee else pref_normal) == phys_none) ≡ false
  choice_not_blank mask cl =
      elim (first_free-cases mask (if cl then pref_callee else pref_normal)) [
        | inl (m, free) ↦
            member_not_blank cl (first_free mask (if cl then pref_callee else pref_normal)) m
        | inr (s, all) ↦ ap (λ t. t == phys_none) s
      ]

  -- The colours after `v` got `c`, as a conditional.
  abbrev IsRead : List ℕ → ℕ → ℕ → ℕ → Type 0
  IsRead color v c x =
      get_or (set color v c) x phys_none ≡ (if v == x then c else get_or color x phys_none)

  not_spilled :
      (color : List ℕ) (v : ℕ) → is_blank color v ≡ true → is_spilled_rep alias n color v ≡ false
  not_spilled color v blank = ground arith

  spilled_here :
      (color : List ℕ) (v c : ℕ)
      → (get_alias alias n v == v) ≡ true
      → IsRead color v c v
      → (c == spill_color) ≡ is_spilled_rep alias n (set color v c) v
  spilled_here color v c root e = rw (root, e, (==_iff v v).1 refl) refl

  spilled_off :
      (color : List ℕ) (v c x : ℕ)
      → (v == x) ≡ false
      → IsRead color v c x
      → is_spilled_rep alias n color x ≡ is_spilled_rep alias n (set color v c) x
  spilled_off color v c x off e = rw (e, off) refl

  spilled_same :
      (color : List ℕ) (v c x : ℕ)
      → (get_alias alias n v == v) ≡ true
      → is_blank color v ≡ true
      → (c == spill_color) ≡ false
      → v < length color
      → is_spilled_rep alias n color x ≡ is_spilled_rep alias n (set color v c) x
  spilled_same color v c x root blank miss lt = elim (Bool-cases (v == x)) [
    | inl here ↦
        let e : v ≡ x = ground arith in
        rw (sym e) (
          not_spilled color v blank
          ∙ sym miss
          ∙ spilled_here color v c root (get_or-set color v v c phys_none lt))
    | inr off ↦ spilled_off color v c x off (get_or-set color v x c phys_none lt)
  ]

  filled-IsStep :
      (st : Colored) (v c : ℕ)
      → v < n
      → length st.color ≡ n
      → (get_alias alias n v == v) ≡ true
      → is_blank st.color v ≡ true
      → (c == phys_none) ≡ false
      → IsStep v st (record {
        color = set st.color v c;
        n_spills = if c == spill_color then st.n_spills + 1 else st.n_spills;
      })
  filled-IsStep st v c lt len root blank ne =
      let read = λ (x : ℕ). get_or-set st.color v x c phys_none (omega arith) in
      record {
        kept = λ x had. elim (Bool-cases (v == x)) [
          | inl here ↦ let e : v ≡ x = ground arith in absurd (cc (ap (is_blank st.color) e))
          | inr other ↦ rw (read x, other) refl
        ];
        filled = λ _. rw (read v, (==_iff v v).1 refl) ne;
        width = length-set st.color v c;
        tally = λ t.
            if_either (λ k. k ≡ count_below n (is_spilled_rep alias n (set st.color v c)))
              (c == spill_color)
              (λ hit.
                plus_one _ _ t
                ∙ count_below-out n v (is_spilled_rep alias n (set st.color v c))
                    (is_spilled_rep alias n st.color) lt
                    (sym (spilled_here st.color v c root (read v)) ∙ hit)
                    (not_spilled st.color v blank)
                    (λ x l off. spilled_off st.color v c x (ground arith) (read x)))
              (λ miss.
                t
                ∙ count_below_congr n (is_spilled_rep alias n st.color)
                    (is_spilled_rep alias n (set st.color v c))
                    (λ x l. spilled_same st.color v c x root blank miss (omega arith)));
      }

  same-IsStep :
      (st : Colored) (v : ℕ)
      → ((get_alias alias n v == v) ≡ true → is_blank st.color v ≡ false)
      → IsStep v st st
  same-IsStep st v h = record { kept = λ x had. refl; filled = h; width = refl; tally = λ t. t }

  select_step-IsStep :
      (st : Colored) (v : ℕ)
      → v < n
      → length st.color ≡ n
      → IsStep v st (select_step junk g pc alias n ids st v)
  unfolding select_step
  select_step-IsStep st v lt len =
      if_either (IsStep v st) (not (get_alias alias n v == v))
        (λ away. same-IsStep st v (λ r. absurd cc))
        (λ root.
          if_either (IsStep v st) (not (is_blank st.color v))
            (λ had. same-IsStep st v (λ _. ground arith))
            (λ blank.
              filled-IsStep st v _ lt len (ground arith) (ground arith)
                (choice_not_blank _ (precolor_is_call_live pc v))))

  -- What the whole phase does.
  pub record IsColored (first : Colored) (vs : List ℕ) (last : Colored) : Type 0 where
    pub keeps :
        (x : ℕ)
        → is_blank first.color x ≡ false
        → get_or last.color x phys_none ≡ get_or first.color x phys_none
    pub covers :
        (x : ℕ)
        → elem x vs ≡ true
        → (get_alias alias n x == x) ≡ true
        → is_blank last.color x ≡ false
    pub length_kept : length last.color ≡ length first.color
    pub tallies :
        first.n_spills ≡ count_below n (is_spilled_rep alias n first.color)
        → last.n_spills ≡ count_below n (is_spilled_rep alias n last.color)

  pub select-IsColored :
      (st : Colored) (vs : List ℕ)
      → ((v : ℕ) → elem v vs ≡ true → v < n)
      → length st.color ≡ n
      → IsColored st vs (select junk g pc alias n ids st vs)
  unfolding select
  select-IsColored st [] inside len = record {
    keeps = λ x had. refl;
    covers = λ x m. cc;
    length_kept = refl;
    tallies = λ t. t;
  }
  select-IsColored st (v ∷ vs) inside len =
      let s = select_step-IsStep st v (inside v (ground arith)) len in
      let next = select_step junk g pc alias n ids st v in
      let z = select-IsColored next vs (λ x m. inside x (ground arith)) (s.width ∙ len) in
      record {
        keeps = λ x had. let e = s.kept x had in z.keeps x (ap (λ t. t == phys_none) e ∙ had) ∙ e;
        covers = λ x m root. elim (Bool-cases (x == v)) [
          | inl here ↦
              let e : v ≡ x = ground arith in
              let full =
                ap (is_blank next.color) (sym e)
                ∙ s.filled (ap (λ t. get_alias alias n t == t) e ∙ root) in
              ap (λ t. t == phys_none) (z.keeps x full) ∙ full
          | inr later ↦ z.covers x (ground arith) root
        ];
        length_kept = z.length_kept ∙ s.width;
        tallies = λ t. z.tallies (s.tally t);
      }
