-- ===== src/Regalloc/Coalesce.antt =====
-- Phase 1: coalescing of moves by George's test.
pub mod Safe
use compilador.Prelude.{
  ℕ, zero, suc, ◌+◌, Bool, true, false, not, ◌&&◌, ◌||◌, List, [], ◌∷◌, ltb, leb, ◌==◌,
  if◌then◌else◌, get_or, set,
}
use compilador.Interference.Matrix.{Ifg, Move}
use compilador.Interference.Graph.{interferes, degree}
use compilador.Precolor.{Precolor, phys_none, precolor_is_fixed}
use compilador.Regalloc.Neighbors.{k_of, get_alias, read_neighbors}

pub record Merged : Type 0 where
  pub alias : List ℕ
  pub color : List ℕ

-- Every heavy neighbour of `b` also touches `a`.
george : Ifg → Precolor → List ℕ → ℕ → ℕ → ℕ → List ℕ → Bool
george g pc alias n a b [] = true
george g pc alias n a b (nb ∷ nbs) =
    let t = get_alias alias n nb in
    let rest = george g pc alias n a b nbs in
    if t == a || t == b
    then rest
    else if leb (k_of pc t) (degree g t) && not (interferes g t a)
    then false
    else rest

-- The merge of `b` into `a`, the precoloured one of the two if there is one.
merge : (ℕ → ℕ) → Ifg → Precolor → ℕ → Merged → ℕ → ℕ → Merged
unfolding george
merge junk g pc n st a b =
    if george g pc st.alias n a b (read_neighbors junk g b)
    then record {
      alias = set st.alias b a;
      color =
          if precolor_is_fixed pc b && get_or st.color a 0 == phys_none
          then set st.color a (get_or st.color b 0)
          else st.color;
    }
    else st

-- The body of the loop over the moves, for the representatives of the two ends.
coalesce_ends : (ℕ → ℕ) → Ifg → Precolor → ℕ → Merged → ℕ → ℕ → Merged
unfolding merge
coalesce_ends junk g pc n st a b =
    if a == b
    then st
    else if interferes g a b
    then st
    else if precolor_is_fixed pc a && precolor_is_fixed pc b
    then st
    else if precolor_is_fixed pc b && not (precolor_is_fixed pc a)
    then merge junk g pc n st b a
    else merge junk g pc n st a b

unfoldable pub coalesce_step : (ℕ → ℕ) → Ifg → Precolor → ℕ → Merged → Move → Merged
unfolding coalesce_ends
coalesce_step junk g pc n st m =
    coalesce_ends junk g pc n st (get_alias st.alias n m.dst) (get_alias st.alias n m.src)

unfoldable pub coalesce : (ℕ → ℕ) → Ifg → Precolor → ℕ → Merged → List Move → Merged
unfolding coalesce_step
coalesce junk g pc n st [] = st
coalesce junk g pc n st (m ∷ ms) = coalesce junk g pc n (coalesce_step junk g pc n st m) ms
