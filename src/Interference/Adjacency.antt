-- ===== src/Interference/Adjacency.antt =====
-- The adjacency list of one node: growth by doubling, and insertion by binary search.
pub mod Order
use compilador.Prelude.{
  ℕ, zero, suc, ◌+◌, ◌-◌, ◌*◌, ◌/◌, ◌%◌, List, [], ◌∷◌, ltb, leb, ◌==◌, if◌then◌else◌, u32_mod,
  get_or, length,
}

-- `len` is the length of `ids`.
pub record AdjList : Type 0 where
  pub ids : List ℕ
  pub cap : ℕ

-- `while (ncap < need) ncap *= 2;`
grow_loop : ℕ → ℕ → ℕ → ℕ
grow_loop zero ncap need = ncap
grow_loop (suc fuel) ncap need =
    let rest = grow_loop fuel (ncap * 2 % u32_mod) need in if ltb ncap need then rest else ncap

-- Doubling reaches any `unsigned` within 32 rounds.
unfoldable pub adj_grow : AdjList → ℕ → AdjList
unfolding grow_loop
adj_grow a need =
    if leb need a.cap
    then a
    else record a { cap = grow_loop 32 (if a.cap == 0 then 4 else a.cap * 2 % u32_mod) need }

-- The insertion point; each round shortens the range.
unfoldable pub search_point : ℕ → List ℕ → ℕ → ℕ → ℕ → ℕ
search_point zero ids id lo hi = lo
search_point (suc fuel) ids id lo hi =
    let mid = lo + (hi - lo) / 2 in
    let right = search_point fuel ids id (mid + 1) hi in
    let left = search_point fuel ids id lo mid in
    if ltb lo hi then (if ltb (get_or ids mid 0) id then right else left) else lo

-- `memmove` by one place from `lo` on, and the write of `ids[lo]`.
unfoldable pub insert_at : List ℕ → ℕ → ℕ → List ℕ
insert_at xs zero id = id ∷ xs
insert_at [] (suc lo) id = id ∷ []
insert_at (x ∷ xs) (suc lo) id = x ∷ insert_at xs lo id

unfoldable pub adj_insert_sorted : AdjList → ℕ → AdjList
unfolding adj_grow search_point insert_at
adj_insert_sorted a id =
    let grown = adj_grow a (length a.ids + 1) in
    record grown {
      ids = insert_at grown.ids (search_point (length a.ids) grown.ids id 0 (length a.ids)) id;
    }
