-- ===== src/Interference/Matrix.antt =====
-- `struct ifg` and its triangular bit matrix: row `hi` holds one bit for each `lo < hi`.
pub mod Bits
use compilador.Prelude.{
  ℕ, zero, suc, ◌+◌, ◌-◌, ◌*◌, ◌/◌, ◌%◌, ◌^◌, bit_and, bit_or, Bool, true, false, List, [], ◌∷◌,
  ◌++◌, ltb, ◌==◌, if◌then◌else◌, get_or, set, replicate,
}
use compilador.Interference.Adjacency.{AdjList}

pub record Move : Type 0 where
  pub dst : ℕ
  pub src : ℕ

-- `n_moves` is the length of `moves`.
pub record Ifg : Type 0 where
  pub n : ℕ
  pub tri : List ℕ
  pub row_off : List ℕ
  pub adj : List AdjList
  pub moves : List Move

unfoldable pub tri_bit : Ifg → ℕ → ℕ → ℕ
tri_bit g lo hi = get_or g.row_off hi 0 + lo

unfoldable pub tri_get : Ifg → ℕ → ℕ → Bool
unfolding tri_bit
tri_get g lo hi = let b = tri_bit g lo hi in bit_and (get_or g.tri (b / 64) 0 / 2 ^ (b % 64)) 1 == 1

-- The graph with the bit set, and whether it was new.
unfoldable pub tri_set : Ifg → ℕ → ℕ → Ifg × Bool
unfolding tri_bit
tri_set g lo hi =
    let b = tri_bit g lo hi in
    let mask = 2 ^ (b % 64) in
    let w = get_or g.tri (b / 64) 0 in
    if bit_and w mask == 0
    then (record g { tri = set g.tri (b / 64) (bit_or w mask) }, true)
    else (g, false)

-- `row_off[b]` for b = from .. from + n - 1. At b = 0 the factor `b - 1` wraps, and is multiplied by 0.
row_offsets : ℕ → ℕ → List ℕ
row_offsets from zero = []
row_offsets from (suc n) = (from * (from - 1) / 2) ∷ row_offsets (from + 1) n

-- The graph that `ifg_build` starts from. The products fit `size_t`, since `n` is an `unsigned`.
unfoldable pub empty_graph : ℕ → Ifg
unfolding row_offsets
empty_graph n =
    let total_bits = n * (if ltb 0 n then n - 1 else 0) / 2 in
    let words = (total_bits + 63) / 64 in
    record {
      n = n;
      tri = replicate (if words == 0 then 1 else words) 0;
      row_off = row_offsets 0 n;
      adj = replicate n (record { ids = []; cap = 0 });
      moves = [];
    }
