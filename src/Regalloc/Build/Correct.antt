-- ===== src/Regalloc/Build/Correct.antt =====
-- The result of regalloc_build: clashes, budgets, fixed registers and the spill count.
use compilador.Precolor.{precolor_is_call_live}
use compilador.Prelude.{
  [], if◌then◌else◌, ℕ, zero, suc, ◌≤◌, ◌<◌, ◌≡◌, refl, ◌∙◌, ap, sym, Bool, true, false, not, ◌&&◌,
  ◌||◌, List, ◌∷◌, arith, ◌==◌, get_or, length, Bool-cases, inl, inr, elem, All, ids_from,
  length-ids_from, get_or-ids_from, elem-ids_from, get_or-map, length-map, count_below,
  count_below_congr, ==_iff, count_below-none,
}
use compilador.Ir.Instr.{Function}
use compilador.Interference.Matrix.{Ifg}
use compilador.Interference.Graph.{interferes, degree}
use compilador.Interference.Graph.Sync.{IsGraph, interferes-lt}
use compilador.Precolor.{Precolor, phys_none, precolor_get, precolor_is_fixed}
use compilador.Regalloc.Neighbors.{get_alias}
use compilador.Regalloc.Neighbors.Alias.{ids-IsForest, get_alias-lt, get_alias_idem}
use compilador.Regalloc.Coalesce.{coalesce}
use compilador.Regalloc.Coalesce.Safe.{IsMerged, IsInside, coalesce-IsMerged}
use compilador.Regalloc.Simplify.{simplify}
use compilador.Regalloc.Simplify.Complete.{simplify_stack, simplify_stack-lt}
use compilador.Regalloc.Select.{spill_color, is_register, Colored, select, propagate}
use compilador.Regalloc.Select.Covers.{is_blank, is_spilled_rep, IsColored, select-IsColored}
use compilador.Regalloc.Select.Proper.{prefs_of, IsProper, select-IsProper}
use compilador.Regalloc.Select.Propagate.{propagate_lem}
use compilador.Regalloc.Build.{Regalloc, seed, regalloc_build}

-- The map of representatives that phase 1 leaves.
abbrev pub classes : (ℕ → ℕ) → Function → Ifg → Precolor → List ℕ
classes junk func g pc =
    (coalesce junk g pc func.next_vreg
      (record { alias = ids_from 0 func.next_vreg; color = seed pc func.next_vreg }) g.moves).alias

abbrev pub representative : (ℕ → ℕ) → Function → Ifg → Precolor → ℕ → ℕ
representative junk func g pc v = get_alias (classes junk func g pc) func.next_vreg v

-- The colour of a register in the result.
abbrev pub color_of : Regalloc → ℕ → ℕ
color_of r v = get_or r.color v phys_none

-- What the allocator asks of its input: a graph of the function's registers, with at most 512
-- neighbours each, and moves between those registers.
pub record IsInput (func : Function) (g : Ifg) : Type 0 where
  pub graph : IsGraph g
  pub nodes : func.next_vreg ≡ g.n
  pub small : (v : ℕ) → v < g.n → degree g v ≤ 512
  pub moves : All (IsInside func.next_vreg) g.moves

select_at :
    (junk : ℕ → ℕ) (g : Ifg) (pc : Precolor) (alias : List ℕ) (graph : IsGraph g)
    (small : (v : ℕ) → v < g.n → degree g v ≤ 512) (first : List ℕ) (m : ℕ) (st : Colored)
    (vs : List ℕ)
    → m ≡ g.n
    → IsProper junk g pc alias graph small first st.color
    → ((v : ℕ) → elem v vs ≡ true → v < m)
    → IsProper junk g pc alias graph small first
        (select junk g pc alias m (ids_from 0 m) st vs).color
select_at junk g pc alias graph small first m st vs e z inside = rw e (
    select-IsProper junk g pc alias graph small first st vs z (λ v h. omega (arith, e, inside v h)))

Bool-clash : {b : Bool} → b ≡ false → b ≡ true → ⊥
Bool-clash p q = cc

count_below-zero : (n : ℕ) (p : ℕ → Bool) → n ≡ 0 → count_below n p ≡ 0
count_below-zero zero p e = refl
count_below-zero (suc n) p e = absurd (omega arith)

new_allowed :
    (c d : ℕ) (prefs : List ℕ)
    → (d == phys_none) ≡ true
    → (c == phys_none) ≡ false
    → ((c == d) || elem c (spill_color ∷ prefs)) ≡ true
    → elem c (spill_color ∷ prefs) ≡ true
new_allowed c d prefs old new h = elim (Bool-cases (c == d)) [
  | inl same ↦ absurd (ground arith)
  | inr other ↦ ap (λ b. b || elem c (spill_color ∷ prefs)) (sym other) ∙ h
]

module _ (junk : ℕ → ℕ) (func : Function) (g : Ifg) (pc : Precolor) (z : IsInput func g) where
  abbrev n : ℕ
  n = func.next_vreg

  abbrev alias : List ℕ
  alias = classes junk func g pc

  abbrev colored : Colored
  colored =
      select junk g pc alias n (ids_from 0 n) (record { color = seed pc n; n_spills = 0 })
        (simplify junk g pc alias n).stack

  merged_lem :
      IsMerged n
        (seed pc n)
        (coalesce junk g pc n (record { alias = ids_from 0 n; color = seed pc n }) g.moves)
  merged_lem = coalesce-IsMerged junk g pc n (seed pc n) _ g.moves z.moves (0, ids-IsForest n, refl)

  seed-read : (v : ℕ) → v < n → get_or (seed pc n) v phys_none ≡ precolor_get pc v
  seed-read v lt =
      get_or-map (precolor_get pc) (ids_from 0 n) v phys_none 0 (omega (arith, length-ids_from 0 n))
      ∙ ap (precolor_get pc) (get_or-ids_from 0 n v 0 lt ∙ omega arith)

  length-seed : length (seed pc n) ≡ n
  length-seed = length-map (precolor_get pc) (ids_from 0 n) ∙ length-ids_from 0 n

  done :
      IsColored junk g pc alias n
        (ids_from 0 n)
        (record { color = seed pc n; n_spills = 0 })
        (simplify junk g pc alias n).stack
        colored
  done =
      select-IsColored junk g pc alias n (ids_from 0 n) _ _ (simplify_stack-lt junk g pc alias n)
        length-seed

  run : List ℕ → Colored
  run color =
      select junk g pc alias n (ids_from 0 n) (record { color = color; n_spills = 0 })
        (simplify junk g pc alias n).stack

  in_ids : (v : ℕ) → v < n → elem v (ids_from 0 n) ≡ true
  in_ids v lt = elem-ids_from 0 n v ∙ ground arith

  idem : (v : ℕ) → v < n → get_alias alias n (get_alias alias n v) ≡ get_alias alias n v
  idem v lt = get_alias_idem alias merged_lem.1 v lt

  inside : (v : ℕ) → elem v (ids_from 0 n) ≡ true → v < n
  inside v m = ground (arith, elem-ids_from 0 n v)

  -- The colour of a node is the one that its representative got.
  result :
      (v : ℕ)
      → v < n
      → color_of (regalloc_build junk func g pc) v
        ≡ get_or colored.color (get_alias alias n v) phys_none
  result v lt =
      let some_node : (n == 0) ≡ false = ground arith in
      unfold regalloc_build run in
      rw some_node (
        ap (λ c. get_or (propagate alias n (ids_from 0 n) (run c).color) v phys_none) merged_lem.2
        ∙ propagate_lem alias n (ids_from 0 n) colored.color v
            (λ x m. omega (arith, done.length_kept, length-seed, inside x m)) (idem v lt)
        ∙ rw (in_ids v lt) refl)

  spills : (0 < n) → (regalloc_build junk func g pc).n_spills ≡ colored.n_spills
  spills lt =
      let some_node : (n == 0) ≡ false = ground arith in
      unfold regalloc_build run in rw some_node (ap (λ c. (run c).n_spills) merged_lem.2)

  proper : IsProper junk g pc alias z.graph z.small (seed pc n) colored.color
  proper =
      select_at junk g pc alias z.graph z.small (seed pc n) n _ _ z.nodes
        (record {
          width = length-seed ∙ z.nodes;
          since = λ v had. refl;
          allowed = λ v. ground arith;
          apart = λ u w lt i ne reg same. (ground arith, ground arith);
        })
        (simplify_stack-lt junk g pc alias n)

  rep-lt : (v : ℕ) → v < n → get_alias alias n v < n
  rep-lt v lt = get_alias-lt alias merged_lem.1 v lt

  -- The two names of the number of nodes.
  rep_at : (v : ℕ) → get_alias alias g.n v ≡ get_alias alias n v
  rep_at v = ap (λ k. get_alias alias k v) (sym z.nodes)

  read_at :
      (v : ℕ)
      → v < n
      → color_of (regalloc_build junk func g pc) v
        ≡ get_or colored.color (get_alias alias g.n v) phys_none
  read_at v lt = result v lt ∙ ap (λ t. get_or colored.color t phys_none) (sym (rep_at v))

  seed_is_fixed : (v : ℕ) → v < n → is_blank (seed pc n) v ≡ not (precolor_is_fixed pc v)
  unfolding precolor_is_fixed
  seed_is_fixed v lt = ap (λ t. t == phys_none) (seed-read v lt) ∙ ground arith

  fixed_at :
      (v : ℕ)
      → v < n
      → is_blank (seed pc n) (get_alias alias g.n v) ≡ false
      → precolor_is_fixed pc (get_alias alias n v) ≡ true
  fixed_at v lt h =
      let e =
        sym (seed_is_fixed (get_alias alias n v) (rep-lt v lt))
        ∙ ap (is_blank (seed pc n)) (sym (rep_at v))
        ∙ h in
      ground arith

  clash_is_fixed :
      (u w : ℕ)
      → u < n
      → interferes g u w ≡ true
      → (get_alias alias n u == get_alias alias n w) ≡ false
      → is_register (color_of (regalloc_build junk func g pc) u) ≡ true
      → color_of (regalloc_build junk func g pc) u ≡ color_of (regalloc_build junk func g pc) w
      → (precolor_is_fixed pc (get_alias alias n u) && precolor_is_fixed pc (get_alias alias n w))
        ≡ true
  clash_is_fixed u w lt i ne reg same =
      let lt_w : w < n = omega (arith, interferes-lt g u w i, z.nodes) in
      let (had_u, had_w) =
        proper.apart u w (omega (arith, z.nodes)) i
          (ap (λ t. t == get_alias alias g.n w) (rep_at u)
            ∙ ap (λ t. get_alias alias n u == t) (rep_at w)
            ∙ ne)
          (ap is_register (sym (read_at u lt)) ∙ reg)
          (sym (read_at u lt) ∙ same ∙ read_at w lt_w) in
      rw (fixed_at u lt had_u, fixed_at w lt_w had_w) refl

  -- On a graph of the function's registers with matrix and lists in step, at most 512 neighbours
  -- for each node and moves between registers of the function: two registers that interfere and
  -- were not coalesced into one class get different colours, where the first gets a machine
  -- register and not both classes had their register fixed from the start.
  pub regalloc_no_clash :
      (u w : ℕ)
      → u < n
      → interferes g u w ≡ true
      → (representative junk func g pc u == representative junk func g pc w) ≡ false
      → (precolor_is_fixed pc (representative junk func g pc u)
          && precolor_is_fixed pc (representative junk func g pc w))
        ≡ false
      → is_register (color_of (regalloc_build junk func g pc) u) ≡ true
      → (color_of (regalloc_build junk func g pc) u == color_of (regalloc_build junk func g pc) w)
        ≡ false
  regalloc_no_clash u w lt i ne free reg =
      elim (Bool-cases (
        color_of (regalloc_build junk func g pc) u == color_of (regalloc_build junk func g pc) w)) [
          | inl same ↦
              absurd (Bool-clash free (clash_is_fixed u w lt i ne reg ((==_iff _ _).0 same)))
          | inr differ ↦ differ
        ]

  -- On a graph of the function's registers with matrix and lists in step, at most 512 neighbours
  -- for each node and moves between registers of the function: a register whose class has no fixed
  -- register ends with REGALLOC_SPILL or with a machine register: one of r8 to r11 where the
  -- representative of the class is live across a call, and otherwise one of r4 to r6, r8 to r11
  -- and r1 to r3.
  pub regalloc_in_budget :
      (v : ℕ)
      → v < n
      → precolor_is_fixed pc (representative junk func g pc v) ≡ false
      → elem (color_of (regalloc_build junk func g pc) v) (
          spill_color
          ∷ (if precolor_is_call_live pc (representative junk func g pc v)
              then 8 ∷ 9 ∷ 10 ∷ 11 ∷ []
              else 4 ∷ 5 ∷ 6 ∷ 8 ∷ 9 ∷ 10 ∷ 11 ∷ 1 ∷ 2 ∷ 3 ∷ []))
        ≡ true
  regalloc_in_budget v lt free =
      let r = get_alias alias n v in
      let blank = seed_is_fixed r (rep-lt v lt) ∙ ap not free in
      let on_stack =
        simplify_stack junk g pc alias n r (rep-lt v lt)
        ∙ ap (λ b. b && not (precolor_is_fixed pc r)) ((==_iff _ _).1 (idem v lt))
        ∙ ap not free in
      let full = done.covers r on_stack ((==_iff _ _).1 (idem v lt)) in
      ap (λ c. elem c (spill_color ∷ prefs_of pc r)) (result v lt)
      ∙ new_allowed (get_or colored.color r phys_none) (get_or (seed pc n) r phys_none)
          (prefs_of pc r) blank full (proper.allowed r)

  -- On a graph of the function's registers with matrix and lists in step, at most 512 neighbours
  -- for each node and moves between registers of the function: every register of a class whose
  -- representative has a fixed register ends with that register.
  pub regalloc_keeps_fixed :
      (v : ℕ)
      → v < n
      → precolor_is_fixed pc (representative junk func g pc v) ≡ true
      → color_of (regalloc_build junk func g pc) v
        ≡ precolor_get pc (representative junk func g pc v)
  regalloc_keeps_fixed v lt fixed =
      let r = get_alias alias n v in
      result v lt
      ∙ proper.since r (seed_is_fixed r (rep-lt v lt) ∙ ap not fixed)
      ∙ seed-read r (rep-lt v lt)

  no_spills : (n == 0) ≡ true → (regalloc_build junk func g pc).n_spills ≡ 0
  unfolding regalloc_build
  no_spills empty = rw empty refl

  no_node :
      n ≡ 0
      → (regalloc_build junk func g pc).n_spills
        ≡ count_below n (λ v.
          (get_alias alias n v == v) && (color_of (regalloc_build junk func g pc) v == spill_color))
  no_node e =
      let empty : (n == 0) ≡ true = ground arith in no_spills empty ∙ sym (count_below-zero n _ e)

  none_spilled :
      ((v : ℕ) → v < n → (precolor_get pc v == spill_color) ≡ false)
      → count_below n (is_spilled_rep alias n (seed pc n)) ≡ 0
  none_spilled h =
      count_below_congr n (is_spilled_rep alias n (seed pc n)) (λ v. false)
        (λ v lt. ground (arith, seed-read v lt, h v lt))
      ∙ count_below-none n

  same_spill :
      (v : ℕ)
      → v < n
      → is_spilled_rep alias n colored.color v ≡ (
          (get_alias alias n v == v) && (color_of (regalloc_build junk func g pc) v == spill_color))
  same_spill v lt = elim (Bool-cases (get_alias alias n v == v)) [
    | inl root ↦ rw (result v lt, (==_iff _ _).0 root) refl
    | inr away ↦ rw away refl
  ]

  -- On a graph of the function's registers with matrix and lists in step, at most 512 neighbours
  -- for each node and moves between registers of the function: where no register is fixed to the
  -- number of REGALLOC_SPILL, the spill count is the number of representatives that end with
  -- REGALLOC_SPILL.
  pub regalloc_counts_spills :
      ((v : ℕ) → v < n → (precolor_get pc v == spill_color) ≡ false)
      → (regalloc_build junk func g pc).n_spills
        ≡ count_below n (λ v.
          (representative junk func g pc v == v)
          && (color_of (regalloc_build junk func g pc) v == spill_color))
  regalloc_counts_spills no_spill = elim (Bool-cases (n == 0)) [
    | inl empty ↦ no_node (ground arith)
    | inr some_node ↦
        spills (ground arith)
        ∙ done.tallies (sym (none_spilled no_spill))
        ∙ count_below_congr n (is_spilled_rep alias n colored.color) _ (λ v lt. same_spill v lt)
  ]
