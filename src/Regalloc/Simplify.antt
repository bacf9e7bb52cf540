-- ===== src/Regalloc/Simplify.antt =====
-- Phase 2: the nodes leave the graph one by one onto the select stack.
pub mod Complete
use compilador.Prelude.{
  ℕ, zero, suc, ◌+◌, ◌-◌, Bool, true, false, not, ◌&&◌, ◌||◌, List, [], ◌∷◌, Option, none, some,
  ltb, ◌==◌, if◌then◌else◌, get_or, set, ids_from, map,
}
use compilador.Prelude.Int.{ℤ, pos, negsuc, pred_ℤ, below, ltb_ℤ}
use compilador.Interference.Matrix.{Ifg}
use compilador.Interference.Graph.{degree}
use compilador.Precolor.{Precolor, precolor_is_fixed}
use compilador.Regalloc.Neighbors.{k_of, get_alias, read_neighbors}

-- The top of the stack is the head of `stack`.
pub record Simp : Type 0 where
  pub wdeg : List ℤ
  pub removed : List Bool
  pub stack : List ℕ

-- May the node still be pushed?
unfoldable pub is_candidate : Precolor → Simp → ℕ → Bool
is_candidate pc st v = not (get_or st.removed v true || precolor_is_fixed pc v)

unfoldable pub wdeg_of : Simp → ℕ → ℤ
wdeg_of st v = get_or st.wdeg v (pos 0)

-- Loop (a): the first candidate of low degree.
find_low : Precolor → Simp → List ℕ → Option ℕ
find_low pc st [] = none
find_low pc st (v ∷ vs) =
    let rest = find_low pc st vs in
    if is_candidate pc st v && below (wdeg_of st v) (k_of pc v) then some v else rest

-- Loop (b): the candidate of highest degree; `best_deg` starts at -1.
find_best : Precolor → Simp → Option ℕ → ℤ → List ℕ → Option ℕ
find_best pc st best best_deg [] = best
find_best pc st best best_deg (v ∷ vs) =
    let better = is_candidate pc st v && ltb_ℤ best_deg (wdeg_of st v) in
    find_best pc st (if better then some v else best) (if better then wdeg_of st v else best_deg) vs

-- `if (!removed[t]) wdeg[t]--;` for the representative of each neighbour.
lower : List ℕ → ℕ → List Bool → List ℕ → List ℤ → List ℤ
lower alias n removed [] wdeg = wdeg
lower alias n removed (nb ∷ nbs) wdeg =
    let t = get_alias alias n nb in
    lower alias n removed nbs
      (if get_or removed t true then wdeg else set wdeg t (pred_ℤ (get_or wdeg t (pos 0))))

push_node : (ℕ → ℕ) → Ifg → List ℕ → ℕ → Simp → ℕ → Simp
unfolding lower
push_node junk g alias n st v =
    let removed = set st.removed v true in
    record {
      wdeg = lower alias n removed (read_neighbors junk g v) st.wdeg;
      removed = removed;
      stack = v ∷ st.stack;
    }

-- The node that one round of the loop takes.
choose : Precolor → Simp → ℕ → Option ℕ
unfolding find_low find_best
choose pc st n = elim (find_low pc st (ids_from 0 n)) [
  | some v ↦ some v
  | none ↦ find_best pc st none (negsuc 0) (ids_from 0 n)
]

unfoldable pub simplify_loop : (ℕ → ℕ) → Ifg → Precolor → List ℕ → ℕ → ℕ → Simp → Simp
unfolding push_node choose
simplify_loop junk g pc alias n zero st = st
simplify_loop junk g pc alias n (suc fuel) st = elim (choose pc st n) [
  | some v ↦ simplify_loop junk g pc alias n fuel (push_node junk g alias n st v)
  | none ↦ st
]

-- The working degrees, and the nodes that were coalesced away.
unfoldable pub start : Ifg → List ℕ → ℕ → Simp
start g alias n = record {
  wdeg = map (λ v. pos (degree g v)) (ids_from 0 n);
  removed = map (λ v. not (get_alias alias n v == v)) (ids_from 0 n);
  stack = [];
}

-- A round removes a node, so `n` rounds and the one that finds none are enough.
unfoldable pub simplify : (ℕ → ℕ) → Ifg → Precolor → List ℕ → ℕ → Simp
unfolding simplify_loop start
simplify junk g pc alias n = simplify_loop junk g pc alias n (n + 1) (start g alias n)
