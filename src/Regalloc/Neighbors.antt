-- ===== src/Regalloc/Neighbors.antt =====
-- The helpers of regalloc.c: the budget of a node, its representative, and the buffer `nbuf` of
-- neighbours.
pub mod Alias
pub mod Read
use compilador.Prelude.{
  ℕ, zero, suc, ◌+◌, Bool, not, List, [], ◌∷◌, ltb, ◌==◌, if◌then◌else◌, get_or,
}
use compilador.Interference.Matrix.{Ifg}
use compilador.Interference.Graph.{neighbors}
use compilador.Precolor.{Precolor, precolor_is_call_live}

abbrev pub k_full : ℕ
k_full = 11

abbrev pub k_callee : ℕ
k_callee = 4

unfoldable pub k_of : Precolor → ℕ → ℕ
k_of pc v = if precolor_is_call_live pc v then k_callee else k_full

-- `while (v < n && alias[v] != v) v = alias[v];`, in at most `fuel` rounds.
unfoldable pub walk : ℕ → List ℕ → ℕ → ℕ → ℕ
walk zero alias n v = v
walk (suc fuel) alias n v =
    let next = walk fuel alias n (get_or alias v 0) in
    if ltb v n then (if not (get_or alias v 0 == v) then next else v) else v

-- A chain of the map that coalescing builds is no longer than `n`.
unfoldable pub get_alias : List ℕ → ℕ → ℕ → ℕ
unfolding walk
get_alias alias n v = walk n alias n v

-- The first `count` reads of a buffer that holds `out`; `junk` is what stands behind the buffer.
unfoldable pub read_buffer : (ℕ → ℕ) → ℕ → ℕ → List ℕ → List ℕ
read_buffer junk at zero out = []
read_buffer junk at (suc count) [] = junk at ∷ read_buffer junk (at + 1) count []
read_buffer junk at (suc count) (x ∷ out) = x ∷ read_buffer junk (at + 1) count out

-- `nbuf[0 .. nc)` after `nc = ifg_neighbors(g, v, nbuf, 512)`: the count may exceed the buffer.
unfoldable pub read_neighbors : (ℕ → ℕ) → Ifg → ℕ → List ℕ
unfolding read_buffer
read_neighbors junk g v = let (nc, nbuf) = neighbors g v 512 in read_buffer junk 0 nc nbuf
