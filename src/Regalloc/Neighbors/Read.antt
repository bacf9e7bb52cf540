-- ===== src/Regalloc/Neighbors/Read.antt =====
-- The buffer `nbuf` against the graph, for at most 512 neighbours.
use compilador.Prelude.{
  ℕ, zero, suc, ◌+◌, ◌≤◌, ◌<◌, ◌≡◌, refl, ap, List, [], ◌∷◌, arith, ltb, leb, length, elem, take,
  Bool-cases, inl, inr,
}
use compilador.Interference.Matrix.{Ifg}
use compilador.Interference.Graph.{interferes, degree, neighbors}
use compilador.Interference.Graph.Sync.{IsGraph, ids_of}
use compilador.Regalloc.Neighbors.{read_buffer, read_neighbors}

read_buffer-all : (junk : ℕ → ℕ) (k : ℕ) (xs : List ℕ) → read_buffer junk k (length xs) xs ≡ xs
unfolding read_buffer
read_buffer-all junk k [] = refl
read_buffer-all junk k (x ∷ xs) = ap (λ t. x ∷ t) (read_buffer-all junk (k + 1) xs)

take-all : (n : ℕ) (xs : List ℕ) → length xs ≤ n → take n xs ≡ xs
take-all zero [] h = refl
take-all zero (x ∷ xs) h = absurd (omega arith)
take-all (suc n) [] h = refl
take-all (suc n) (x ∷ xs) h = ap (λ t. x ∷ t) (take-all n xs (omega arith))

pub elem-read_neighbors :
    (junk : ℕ → ℕ) (g : Ifg) (u t : ℕ)
    → IsGraph g
    → u < g.n
    → degree g u ≤ 512
    → elem t (read_neighbors junk g u) ≡ interferes g u t
unfolding read_neighbors neighbors degree
elem-read_neighbors junk g u t z lt small = elim (Bool-cases (leb g.n u)) [
  | inl out ↦ absurd (ground arith)
  | inr inside ↦
      let ids = ids_of g u in
      let fits : length ids ≤ 512 = ground arith in
      elim (Bool-cases (ltb (length ids) 512)) [
        | inl less ↦
            rw (inside, less, take-all (length ids) ids (omega arith), read_buffer-all junk 0 ids)
              (z.in_sync u t lt)
        | inr full ↦
            let e : length ids ≡ 512 = ground arith in
            rw (inside, full, take-all 512 ids fits, read_buffer-all junk 0 ids) (z.in_sync u t lt)
      ]
]
