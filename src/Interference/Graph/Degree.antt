-- ===== src/Interference/Graph/Degree.antt =====
-- `ifg_degree` against the matrix.
use compilador.Prelude.{
  count_below, count_below-none, ℕ, ◌<◌, ◌≡◌, ◌∙◌, ap, sym, true, false, List, [], ◌∷◌, arith, leb,
  length, elem, Bool-cases, inl, inr,
}
use compilador.Prelude.Counting.{count_below-cons}
use mathlib.Core.Path.{fun_ext}
use compilador.Interference.Adjacency.Order.{IsAscending}
use compilador.Interference.Matrix.{Ifg}
use compilador.Interference.Graph.{interferes, degree}
use compilador.Interference.Graph.Sync.{IsGraph, ids_of, interferes-out, interferes-lt}

length-ascending :
    (n : ℕ) (xs : List ℕ)
    → IsAscending xs
    → ((x : ℕ) → elem x xs ≡ true → x < n)
    → length xs ≡ count_below n (λ x. elem x xs)
length-ascending n [] s h = sym (count_below-none n)
length-ascending n (x ∷ xs) s h =
    let rest = length-ascending n xs s.1 (λ y e. h y (ground arith)) in
    let new : elem x xs ≡ false = ground (arith, s.0 x) in
    let lt : x < n = h x (ground arith) in ground (arith, count_below-cons n x xs new)

-- On a graph with matrix and lists in step, the degree of a node is the number of nodes that it
-- interferes with.
pub degree-eq-count : (g : Ifg) (v : ℕ) → IsGraph g → degree g v ≡ count_below g.n (interferes g v)
degree-eq-count g v z = elim (Bool-cases (leb g.n v)) [
  | inl out ↦
      unfold degree in
      rw out (sym (ap (count_below g.n) (fun_ext (interferes-out g v out)) ∙ count_below-none g.n))
  | inr inside ↦
      let lt : v < g.n = ground arith in
      unfold degree in
      rw inside (
        length-ascending g.n (ids_of g v) (z.ascending v lt)
          (λ x e. interferes-lt g v x (sym (z.in_sync v x lt) ∙ e))
        ∙ ap (count_below g.n) (fun_ext (λ x. z.in_sync v x lt)))
]
