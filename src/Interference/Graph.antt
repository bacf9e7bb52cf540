-- ===== src/Interference/Graph.antt =====
-- Edges and queries: `ifg_add_edge`, `ifg_interferes`, `ifg_degree`, `ifg_neighbors`.
pub mod Degree
pub mod Sync
use compilador.Prelude.{
  ℕ, Bool, true, false, List, [], ltb, leb, ◌==◌, if◌then◌else◌, get_or, set, length, take,
}
use compilador.Interference.Adjacency.{AdjList, adj_insert_sorted}
use compilador.Interference.Matrix.{Ifg, tri_get, tri_set}

abbrev pub no_ids : AdjList
no_ids = record { ids = []; cap = 0 }

-- `adj_insert_sorted(&g->adj[a], b)`
insert_neighbor : Ifg → ℕ → ℕ → Ifg
insert_neighbor g a b = record g { adj = set g.adj a (adj_insert_sorted (get_or g.adj a no_ids) b) }

-- The rest of `ifg_add_edge` once the order of the two nodes is known.
mark_edge : Ifg → ℕ → ℕ → ℕ → ℕ → Ifg × Bool
unfolding insert_neighbor
mark_edge g a b lo hi =
    let (marked, new) = tri_set g lo hi in
    if new then (insert_neighbor (insert_neighbor marked a b) b a, true) else (marked, false)

-- The graph, and whether the edge is new.
unfoldable pub add_edge : Ifg → ℕ → ℕ → Ifg × Bool
unfolding mark_edge
add_edge g a b =
    if a == b
    then (g, false)
    else if leb g.n a
    then (g, false)
    else if leb g.n b
    then (g, false)
    else mark_edge g a b (if ltb a b then a else b) (if ltb a b then b else a)

unfoldable pub interferes : Ifg → ℕ → ℕ → Bool
interferes g a b =
    if a == b
    then false
    else if leb g.n a
    then false
    else if leb g.n b
    then false
    else tri_get g (if ltb a b then a else b) (if ltb a b then b else a)

unfoldable pub degree : Ifg → ℕ → ℕ
degree g v = if leb g.n v then 0 else length (get_or g.adj v no_ids).ids

-- The number of neighbours, and those that are written to `out`.
unfoldable pub neighbors : Ifg → ℕ → ℕ → ℕ × List ℕ
neighbors g v max =
    if leb g.n v
    then (0, [])
    else let ids = (get_or g.adj v no_ids).ids in
      (length ids, take (if ltb (length ids) max then length ids else max) ids)
