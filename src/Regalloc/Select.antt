-- ===== src/Regalloc/Select.antt =====
-- Phases 3 and 4: colours for the nodes of the stack, and for the nodes that were coalesced away.
pub mod Choice
pub mod Covers
pub mod Propagate
pub mod Proper
use compilador.Prelude.{
  ℕ, zero, suc, ◌+◌, ◌^◌, bit_and, bit_or, Bool, true, false, not, ◌&&◌, ◌||◌, List, [], ◌∷◌, ltb,
  leb, ◌==◌, if◌then◌else◌, get_or, set,
}
use compilador.Interference.Matrix.{Ifg}
use compilador.Precolor.{Precolor, phys_none, precolor_is_call_live}
use compilador.Regalloc.Neighbors.{get_alias, read_neighbors}

-- `REGALLOC_SPILL`
abbrev pub spill_color : ℕ
spill_color = 254

-- `tc != PHYS_NONE && tc != REGALLOC_SPILL && tc <= PHYS_R12`
abbrev pub is_register : ℕ → Bool
is_register c = not (c == phys_none) && (not (c == spill_color) && leb c 12)

-- `forbidden |= 1u << tc` for the representative of each neighbour; no bit is beyond the sixteenth.
pub forbid : List ℕ → List ℕ → ℕ → List ℕ → ℕ → ℕ
forbid color alias n [] forbidden = forbidden
forbid color alias n (nb ∷ nbs) forbidden =
    let tc = get_or color (get_alias alias n nb) phys_none in
    forbid color alias n nbs (if is_register tc then bit_or forbidden (2 ^ tc) else forbidden)

-- The neighbours of the nodes `u < m` that were merged into `v`.
pub forbid_merged : (ℕ → ℕ) → Ifg → List ℕ → List ℕ → ℕ → ℕ → List ℕ → ℕ → ℕ
unfolding forbid
forbid_merged junk g color alias n v [] forbidden = forbidden
forbid_merged junk g color alias n v (u ∷ us) forbidden = forbid_merged junk g color alias n v us (
    if u == v || not (get_alias alias n u == v)
    then forbidden
    else forbid color alias n (read_neighbors junk g u) forbidden)

abbrev pub pref_normal : List ℕ
pref_normal = 4 ∷ 5 ∷ 6 ∷ 8 ∷ 9 ∷ 10 ∷ 11 ∷ 1 ∷ 2 ∷ 3 ∷ []

abbrev pub pref_callee : List ℕ
pref_callee = 8 ∷ 9 ∷ 10 ∷ 11 ∷ []

-- The first register of the list that is not forbidden.
pub first_free : ℕ → List ℕ → ℕ
first_free forbidden [] = spill_color
first_free forbidden (c ∷ cs) =
    let rest = first_free forbidden cs in if bit_and forbidden (2 ^ c) == 0 then c else rest

pub record Colored : Type 0 where
  pub color : List ℕ
  pub n_spills : ℕ

-- The mask of the node `v`.
pub forbidden_of : (ℕ → ℕ) → Ifg → List ℕ → List ℕ → ℕ → List ℕ → ℕ → ℕ
unfolding forbid_merged
forbidden_of junk g color alias n ids v =
    forbid_merged junk g color alias n v ids (forbid color alias n (read_neighbors junk g v) 0)

-- One node of the stack; `ids` are 0, 1, .., n - 1.
pub select_step : (ℕ → ℕ) → Ifg → Precolor → List ℕ → ℕ → List ℕ → Colored → ℕ → Colored
unfolding forbidden_of first_free
select_step junk g pc alias n ids st v =
    if not (get_alias alias n v == v)
    then st
    else if not (get_or st.color v phys_none == phys_none)
    then st
    else let pref = if precolor_is_call_live pc v then pref_callee else pref_normal in
      let chosen = first_free (forbidden_of junk g st.color alias n ids v) pref in
      record {
        color = set st.color v chosen;
        n_spills = if chosen == spill_color then st.n_spills + 1 else st.n_spills;
      }

unfoldable pub select : (ℕ → ℕ) → Ifg → Precolor → List ℕ → ℕ → List ℕ → Colored → List ℕ → Colored
unfolding select_step
select junk g pc alias n ids st [] = st
select junk g pc alias n ids st (v ∷ vs) =
    select junk g pc alias n ids (select_step junk g pc alias n ids st v) vs

-- Phase 4
unfoldable pub propagate : List ℕ → ℕ → List ℕ → List ℕ → List ℕ
propagate alias n [] color = color
propagate alias n (v ∷ vs) color =
    let av = get_alias alias n v in
    propagate alias n vs (if av == v then color else set color v (get_or color av phys_none))
