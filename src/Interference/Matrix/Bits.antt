-- ===== src/Interference/Matrix/Bits.antt =====
-- The bits of the pairs `lo < hi < n`.
use compilador.Prelude.{
  ℕ, zero, suc, ◌+◌, ◌-◌, ◌*◌, ◌/◌, ◌%◌, ◌^◌, ◌≤◌, ◌<◌, bit_and, bit_or, ◌≡◌, refl, ◌∙◌, ap, Bool,
  true, false, not, ◌&&◌, ◌||◌, List, arith, ltb, ltb→lt, ◌==◌, ==_iff, get_or, set, length,
  length-set, length-replicate, get_or-replicate, get_or-set, Bool-cases, inl, inr,
}
use compilador.Prelude.Bits.{bit, bit-bit_or, bit-pow, mask_test, bit_shift, bit-zero, eq-halves}
use mathlib.Core.Path.{ap₂}
use compilador.Interference.Matrix.{Ifg, tri_bit, tri_get, tri_set, row_offsets, empty_graph}

-- The bits in the rows before row `h`.
pub row_start : ℕ → ℕ
row_start zero = 0
row_start (suc h) = row_start h + h

row_start-suc : (h : ℕ) → row_start (suc h) ≡ row_start h + h
unfolding row_start
row_start-suc h = refl

row_start_next : (h : ℕ) → suc h * h ≡ 2 * row_start (suc h)
unfolding row_start
row_start_next zero = refl
row_start_next (suc h) = omega (arith, row_start_next h)

row_start_product : (h : ℕ) → h * (h - 1) ≡ 2 * row_start h
row_start_product zero = unfold row_start in refl
row_start_product (suc h) = ap (λ t. suc h * t) (omega arith) ∙ row_start_next h

row_start_mono : (h d : ℕ) → h ≤ d → row_start h ≤ row_start d
row_start_mono h zero le = let e : h ≡ 0 = omega arith in rw e (omega arith)
row_start_mono h (suc d) le = elim (Bool-cases (ltb d h)) [
  | inl top ↦ let e : h ≡ suc d = ground arith in rw e (omega arith)
  | inr below ↦ omega (arith, row_start_mono h d (ground arith), row_start-suc d)
]

row_offsets-get : (from n i : ℕ) → i < n → get_or (row_offsets from n) i 0 ≡ row_start (from + i)
unfolding row_offsets
row_offsets-get from zero i h = absurd (omega arith)
row_offsets-get from (suc n) zero h =
    let e : from + 0 ≡ from = omega arith in rw e (omega (arith, row_start_product from))
row_offsets-get from (suc n) (suc i) h =
    row_offsets-get (from + 1) n i (omega arith) ∙ ap row_start (omega arith)

-- The matrix has its rows in place and room for all of them.
pub record IsLaidOut (g : Ifg) : Type 0 where
  pub rows : (h : ℕ) → h < g.n → get_or g.row_off h 0 ≡ row_start h
  pub room : row_start g.n ≤ 64 * length g.tri

-- Different pairs have different bits.
pub tri_bit_injective :
    (a b c d : ℕ) → a < b → c < d → row_start b + a ≡ row_start d + c → (a ≡ c) × (b ≡ d)
tri_bit_injective a b c d p q e = elim (Bool-cases (ltb b d)) [
  | inl less ↦
      absurd (
        omega (arith, ltb→lt b d less, row_start_mono (suc b) d (ltb→lt b d less), row_start-suc b))
  | inr not_less ↦ elim (Bool-cases (ltb d b)) [
    | inl more ↦ absurd (
        omega (arith, ltb→lt d b more, row_start_mono (suc d) b (ltb→lt d b more), row_start-suc d))
    | inr not_more ↦ let same : b ≡ d = ground arith in (omega (arith, ap row_start same), same)
  ]
]

-- The bit of a pair lies in the matrix.
tri_bit-lt :
    (g : Ifg) (lo hi : ℕ) → IsLaidOut g → lo < hi → hi < g.n → tri_bit g lo hi / 64 < length g.tri
unfolding tri_bit
tri_bit-lt g lo hi v p q =
    omega (arith, v.rows hi q, v.room, row_start-suc hi, row_start_mono (suc hi) g.n q)

word_bit : List ℕ → ℕ → Bool
word_bit ws i = bit (get_or ws (i / 64) 0) (i % 64)

tri_get-bit : (g : Ifg) (lo hi : ℕ) → tri_get g lo hi ≡ word_bit g.tri (tri_bit g lo hi)
unfolding tri_get word_bit
tri_get-bit g lo hi = bit_shift (get_or g.tri (tri_bit g lo hi / 64) 0) (tri_bit g lo hi % 64)

word_bit-set :
    (ws : List ℕ) (i j : ℕ)
    → i / 64 < length ws
    → word_bit (set ws (i / 64) (bit_or (get_or ws (i / 64) 0) (2 ^ (i % 64)))) j
      ≡ (i == j || word_bit ws j)
unfolding word_bit
word_bit-set ws i j h =
    rw (get_or-set ws (i / 64) (j / 64) (bit_or (get_or ws (i / 64) 0) (2 ^ (i % 64))) 0 h)
      (elim (Bool-cases (i / 64 == j / 64)) [
        | inl same ↦
            rw (same, bit-bit_or, bit-pow, ← (==_iff (i / 64) (j / 64)).0 same)
              (ground (arith, eq-halves i j))
        | inr other ↦ rw other (ground (arith, eq-halves i j))
      ])

pair_test :
    (g : Ifg) (lo hi x y : ℕ)
    → IsLaidOut g
    → lo < hi
    → hi < g.n
    → x < y
    → y < g.n
    → (tri_bit g lo hi == tri_bit g x y) ≡ (lo == x && hi == y)
unfolding tri_bit
pair_test g lo hi x y v p q p' q' =
    rw (v.rows hi q, v.rows y q')
      (elim (Bool-cases (row_start hi + lo == row_start y + x)) [
        | inl e ↦ let same = tri_bit_injective lo hi x y p p' (ground arith) in ground arith
        | inr e ↦ ground (arith, pair_congr lo hi x y)
      ])
  where
    pair_congr : (lo hi x y : ℕ) → (lo == x && hi == y) ≡ true → row_start hi + lo ≡ row_start y + x
    pair_congr lo hi x y e = ap₂ (λ s t. row_start s + t) (ground arith) (ground arith)

-- Setting a pair reports whether it was clear, and changes that pair alone.
pub tri_set-flag : (g : Ifg) (lo hi : ℕ) → (tri_set g lo hi).1 ≡ not (tri_get g lo hi)
unfolding tri_set
tri_set-flag g lo hi =
    let b = tri_bit g lo hi in
    let test = mask_test (get_or g.tri (b / 64) 0) (b % 64) in
    rw (tri_get-bit g lo hi) (unfold word_bit in ground (arith, test))

pub tri_set-IsLaidOut : (g : Ifg) (lo hi : ℕ) → IsLaidOut g → IsLaidOut (tri_set g lo hi).0
unfolding tri_set
tri_set-IsLaidOut g lo hi v =
    let b = tri_bit g lo hi in
    let w = get_or g.tri (b / 64) 0 in
    elim (Bool-cases (bit_and w (2 ^ (b % 64)) == 0)) [
      | inl clear ↦ rw clear (record { rows = v.rows; room = rw length-set v.room })
      | inr marked ↦ rw marked v
    ]

pub tri_set-fields :
    (g : Ifg) (lo hi : ℕ)
    → ((tri_set g lo hi).0.n ≡ g.n)
      × ((tri_set g lo hi).0.adj ≡ g.adj)
      × ((tri_set g lo hi).0.row_off ≡ g.row_off)
      × ((tri_set g lo hi).0.moves ≡ g.moves)
unfolding tri_set
tri_set-fields g lo hi = ground arith

pub tri_set-old : (g : Ifg) (lo hi : ℕ) → (tri_set g lo hi).1 ≡ false → (tri_set g lo hi).0 ≡ g
unfolding tri_set
tri_set-old g lo hi h = ground arith

tri_get-tri_set_same :
    (g : Ifg) (lo hi x y : ℕ)
    → tri_get g lo hi ≡ true
    → (lo == x && hi == y) ≡ true
    → tri_get g x y ≡ true
tri_get-tri_set_same g lo hi x y h e = ap₂ (tri_get g) (ground arith) (ground arith) ∙ h

-- Setting the bit of one pair of nodes of the graph sets it, and leaves those of all other pairs.
pub tri_get-tri_set :
    (g : Ifg) (lo hi x y : ℕ)
    → IsLaidOut g
    → lo < hi
    → hi < g.n
    → x < y
    → y < g.n
    → tri_get (tri_set g lo hi).0 x y ≡ ((lo == x && hi == y) || tri_get g x y)
unfolding tri_set
tri_get-tri_set g lo hi x y v p q p' q' =
    let b = tri_bit g lo hi in
    let w = get_or g.tri (b / 64) 0 in
    let same_pair = pair_test g lo hi x y v p q p' q' in
    let test = mask_test w (b % 64) in
    elim (Bool-cases (bit_and w (2 ^ (b % 64)) == 0)) [
      | inl clear ↦ rw clear (
          tri_get-bit (record g { tri = set g.tri (b / 64) (bit_or w (2 ^ (b % 64))) }) x y
          ∙ word_bit-set g.tri b (tri_bit g x y) (tri_bit-lt g lo hi v p q)
          ∙ rw (same_pair, tri_get-bit g x y) refl)
      | inr marked ↦
          let was : tri_get g lo hi ≡ true =
            tri_get-bit g lo hi ∙ unfold word_bit in ground (arith, test) in
          rw marked (ground (arith, tri_get-tri_set_same g lo hi x y was))
    ]

pub empty_graph-IsLaidOut : (n : ℕ) → IsLaidOut (empty_graph n)
unfolding empty_graph
empty_graph-IsLaidOut n = record {
  rows = λ h lt. row_offsets-get 0 n h lt ∙ ap row_start (omega arith);
  room = rw length-replicate (elim (Bool-cases (ltb 0 n)) [
    | inl some_row ↦ rw some_row (ground (arith, row_start_product n))
    | inr no_row ↦ rw no_row (ground (arith, row_start_product n))
  ]);
}

pub tri_get-empty_graph : (n x y : ℕ) → tri_get (empty_graph n) x y ≡ false
tri_get-empty_graph n x y =
    tri_get-bit (empty_graph n) x y
    ∙ unfold empty_graph word_bit in
      rw get_or-replicate (bit-zero (tri_bit (empty_graph n) x y % 64))
