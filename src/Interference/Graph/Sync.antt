-- ===== src/Interference/Graph/Sync.antt =====
-- The matrix and the adjacency lists as one undirected graph, and `ifg_add_edge` on it.
use compilador.Prelude.{
  subst, ℕ, ◌<◌, ◌≡◌, ◌⊎◌, refl, ◌∙◌, ap, sym, Bool, true, false, not, ◌&&◌, ◌||◌, List, [], arith,
  ltb, leb, ◌==◌, if◌then◌else◌, get_or, length, length-set, get_or-set, get_or-replicate,
  length-replicate, elem, ==_iff, Bool-cases, inl, inr,
}
use compilador.Interference.Adjacency.{AdjList, adj_insert_sorted}
use compilador.Interference.Adjacency.Order.{IsAscending, adj_insert_sorted_lem}
use compilador.Interference.Matrix.{Ifg, tri_get, tri_set, empty_graph}
use compilador.Interference.Matrix.Bits.{
  IsLaidOut, tri_set-flag, tri_set-old, tri_set-IsLaidOut, tri_set-fields, tri_get-tri_set,
  empty_graph-IsLaidOut, tri_get-empty_graph,
}
use compilador.Interference.Graph.{no_ids, insert_neighbor, mark_edge, add_edge, interferes}

abbrev pub ids_of : Ifg → ℕ → List ℕ
ids_of g v = (get_or g.adj v no_ids).ids

-- The lists are ascending and list exactly the nodes that the matrix marks.
pub record IsGraph (g : Ifg) : Type 0 where
  pub laid : IsLaidOut g
  pub lists : length g.adj ≡ g.n
  pub ascending : (v : ℕ) → v < g.n → IsAscending (ids_of g v)
  pub in_sync : (v x : ℕ) → v < g.n → elem x (ids_of g v) ≡ interferes g v x

-- Interference is symmetric and irreflexive, whatever the graph.
pub interferes_symm : (g : Ifg) (a b : ℕ) → interferes g a b ≡ interferes g b a
unfolding interferes
interferes_symm g a b = ground arith

pub interferes_irrefl : (g : Ifg) (a : ℕ) → interferes g a a ≡ false
unfolding interferes
interferes_irrefl g a = ground arith

pub interferes-lt : (g : Ifg) (a b : ℕ) → interferes g a b ≡ true → b < g.n
unfolding interferes
interferes-lt g a b h = ground arith

pub interferes-out : (g : Ifg) (a : ℕ) → leb g.n a ≡ true → (x : ℕ) → interferes g a x ≡ false
unfolding interferes
interferes-out g a h x = ground arith

pub interferes-empty_graph : (n x y : ℕ) → interferes (empty_graph n) x y ≡ false
unfolding interferes
interferes-empty_graph n x y =
    ground (arith, tri_get-empty_graph n (if ltb x y then x else y) (if ltb x y then y else x))

-- The edge `x`-`y` is the edge `a`-`b`, and one that the graph can have.
abbrev pub is_edge : Ifg → ℕ → ℕ → ℕ → ℕ → Bool
is_edge g a b x y =
    not (a == b) && (ltb a g.n && (ltb b g.n && ((a == x && b == y) || (a == y && b == x))))

interferes-tri_set :
    (g : Ifg) (lo hi x y : ℕ)
    → IsLaidOut g
    → lo < hi
    → hi < g.n
    → interferes (tri_set g lo hi).0 x y
      ≡ (((lo == x && hi == y) || (lo == y && hi == x)) || interferes g x y)
unfolding interferes
interferes-tri_set g lo hi x y v p q =
    rw ((tri_set-fields g lo hi).0)
      (ground (arith, tri_get-tri_set g lo hi x y v p q, tri_get-tri_set g lo hi y x v p q))

interferes-insert_neighbor :
    (g : Ifg) (a b x y : ℕ) → interferes (insert_neighbor g a b) x y ≡ interferes g x y
unfolding interferes insert_neighbor tri_get
interferes-insert_neighbor g a b x y = refl

interferes-mark_edge :
    (g : Ifg) (a b lo hi x y : ℕ)
    → IsLaidOut g
    → lo < hi
    → hi < g.n
    → interferes (mark_edge g a b lo hi).0 x y
      ≡ (((lo == x && hi == y) || (lo == y && hi == x)) || interferes g x y)
unfolding mark_edge
interferes-mark_edge g a b lo hi x y v p q = elim (Bool-cases (tri_set g lo hi).1) [
  | inl new ↦ rw new (
      interferes-insert_neighbor (insert_neighbor (tri_set g lo hi).0 a b) b a x y
      ∙ interferes-insert_neighbor (tri_set g lo hi).0 a b x y
      ∙ interferes-tri_set g lo hi x y v p q)
  | inr old ↦ rw old (interferes-tri_set g lo hi x y v p q)
]

ids_of-insert_neighbor :
    (g : Ifg) (a b v : ℕ)
    → a < length g.adj
    → ids_of (insert_neighbor g a b) v
      ≡ (if a == v then (adj_insert_sorted (get_or g.adj a no_ids) b).ids else ids_of g v)
unfolding insert_neighbor
ids_of-insert_neighbor g a b v h =
    ap (λ (t : AdjList). t.ids)
      (get_or-set g.adj a v (adj_insert_sorted (get_or g.adj a no_ids) b) no_ids h)
    ∙ ground arith

-- The list of one end of a new edge.
insert-IsAscending :
    (g : Ifg) (a b v : ℕ)
    → a < length g.adj
    → elem b (ids_of g a) ≡ false
    → IsAscending (ids_of g a)
    → IsAscending (ids_of g v)
    → IsAscending (ids_of (insert_neighbor g a b) v)
insert-IsAscending g a b v h new sa sv = elim (Bool-cases (a == v)) [
  | inl here ↦
      subst IsAscending (sym (ids_of-insert_neighbor g a b v h ∙ rw here refl))
        (adj_insert_sorted_lem (get_or g.adj a no_ids) b sa new).0
  | inr other ↦ subst IsAscending (sym (ids_of-insert_neighbor g a b v h ∙ rw other refl)) sv
]

elem-insert_neighbor :
    (g : Ifg) (a b v x : ℕ)
    → a < length g.adj
    → elem b (ids_of g a) ≡ false
    → IsAscending (ids_of g a)
    → elem x (ids_of (insert_neighbor g a b) v) ≡ ((a == v && x == b) || elem x (ids_of g v))
elem-insert_neighbor g a b v x h new sa = elim (Bool-cases (a == v)) [
  | inl here ↦
      rw (ids_of-insert_neighbor g a b v h, here, ← (==_iff a v).0 here)
        ((adj_insert_sorted_lem (get_or g.adj a no_ids) b sa new).1 x)
  | inr other ↦ rw (ids_of-insert_neighbor g a b v h, other) refl
]

-- Both ends, where the edge is new.
module _ (g : Ifg) (a b lo hi : ℕ) (v : IsGraph g) (less : lo < hi) (inside : hi < g.n)
    (ends : ((a ≡ lo) × (b ≡ hi)) ⊎ ((a ≡ hi) × (b ≡ lo))) (new : (tri_set g lo hi).1 ≡ true) where
  -- The graph after each of the three writes.
  abbrev marked : Ifg
  marked = (tri_set g lo hi).0

  abbrev half : Ifg
  half = insert_neighbor marked a b

  apart : interferes g a b ≡ false
  apart = unfold interferes in ground (arith, tri_set-flag g lo hi)

  same_ids : (w : ℕ) → ids_of marked w ≡ ids_of g w
  same_ids w = ap (λ t. (get_or t w no_ids).ids) (tri_set-fields g lo hi).1

  lists_marked : length marked.adj ≡ g.n
  lists_marked = ap length (tri_set-fields g lo hi).1 ∙ v.lists

  lists_half : length half.adj ≡ g.n
  lists_half =
      unfold insert_neighbor in
      (length-set marked.adj a (adj_insert_sorted (get_or marked.adj a no_ids) b) ∙ lists_marked)

  new_a : elem b (ids_of marked a) ≡ false
  new_a = ap (elem b) (same_ids a) ∙ v.in_sync a b (omega arith) ∙ apart

  sorted_marked : (w : ℕ) → w < g.n → IsAscending (ids_of marked w)
  sorted_marked w lt = subst IsAscending (sym (same_ids w)) (v.ascending w lt)

  in_a : a < length marked.adj
  in_a = omega (arith, lists_marked)

  in_b : b < length half.adj
  in_b = omega (arith, lists_half)

  elem-half : (w x : ℕ) → elem x (ids_of half w) ≡ ((a == w && x == b) || elem x (ids_of g w))
  elem-half w x =
      elem-insert_neighbor marked a b w x in_a new_a (sorted_marked a (omega arith))
      ∙ ap (λ t. (a == w && x == b) || elem x t) (same_ids w)

  new_b : elem a (ids_of half b) ≡ false
  new_b = ground (arith, elem-half b a, v.in_sync b a (omega arith), interferes_symm g a b, apart)

  sorted_half : (w : ℕ) → w < g.n → IsAscending (ids_of half w)
  sorted_half w lt =
      insert-IsAscending marked a b w in_a new_a (sorted_marked a (omega arith))
        (sorted_marked w lt)

  same_n : marked.n ≡ g.n
  same_n = (tri_set-fields g lo hi).0

  both : Ifg
  both = insert_neighbor half b a

  laid_both : IsLaidOut both
  unfolding both insert_neighbor
  laid_both = let z = tri_set-IsLaidOut g lo hi v.laid in record { rows = z.rows; room = z.room }

  lists_both : length both.adj ≡ both.n
  unfolding both insert_neighbor
  lists_both =
      length-set half.adj b (adj_insert_sorted (get_or half.adj b no_ids) a)
      ∙ lists_half
      ∙ sym same_n

  n_both : both.n ≡ g.n
  unfolding both insert_neighbor
  n_both = same_n

  interferes-both :
      (x y : ℕ)
      → interferes both x y ≡ (((lo == x && hi == y) || (lo == y && hi == x)) || interferes g x y)
  unfolding both
  interferes-both x y =
      interferes-insert_neighbor half b a x y
      ∙ interferes-insert_neighbor marked a b x y
      ∙ interferes-tri_set g lo hi x y v.laid less inside

  elem-both :
      (w x : ℕ)
      → elem x (ids_of both w) ≡ ((b == w && x == a) || ((a == w && x == b) || elem x (ids_of g w)))
  unfolding both
  elem-both w x =
      elem-insert_neighbor half b a w x in_b new_b (sorted_half b (omega arith))
      ∙ ap (λ t. (b == w && x == a) || t) (elem-half w x)

  both-IsGraph : IsGraph both
  both-IsGraph = record {
    laid = laid_both;
    lists = lists_both;
    ascending = λ w lt.
        unfold both in
        insert-IsAscending half b a w in_b new_b (sorted_half b (omega arith))
          (sorted_half w (omega (arith, n_both)));
    in_sync = λ w x lt.
        elem-both w x ∙ ground (arith, v.in_sync w x (omega (arith, n_both)), interferes-both w x);
  }

mark_edge-IsGraph :
    (g : Ifg) (a b lo hi : ℕ)
    → IsGraph g
    → lo < hi
    → hi < g.n
    → ((a ≡ lo) × (b ≡ hi)) ⊎ ((a ≡ hi) × (b ≡ lo))
    → IsGraph (mark_edge g a b lo hi).0
unfolding mark_edge
mark_edge-IsGraph g a b lo hi v less inside ends = elim (Bool-cases (tri_set g lo hi).1) [
  | inl new ↦ rw new (unfold both in both-IsGraph g a b lo hi v less inside ends new)
  | inr old ↦ rw old (subst IsGraph (sym (tri_set-old g lo hi old)) v)
]

mark_edge-n : (g : Ifg) (a b lo hi : ℕ) → (mark_edge g a b lo hi).0.n ≡ g.n
unfolding mark_edge insert_neighbor
mark_edge-n g a b lo hi = ground (arith, (tri_set-fields g lo hi).0)

pub add_edge-n : (g : Ifg) (a b : ℕ) → (add_edge g a b).0.n ≡ g.n
unfolding add_edge
add_edge-n g a b =
    ground (arith, mark_edge-n g a b (if ltb a b then a else b) (if ltb a b then b else a))

-- On a graph with matrix and lists in step, `ifg_add_edge` keeps them in step.
pub add_edge-IsGraph : (g : Ifg) (a b : ℕ) → IsGraph g → IsGraph (add_edge g a b).0
unfolding add_edge
add_edge-IsGraph g a b v = elim (Bool-cases (a == b)) [
  | inl same ↦ rw same v
  | inr differ ↦ elim (Bool-cases (leb g.n a)) [
    | inl out ↦ rw (differ, out) v
    | inr in_a ↦ elim (Bool-cases (leb g.n b)) [
      | inl out ↦ rw (differ, in_a, out) v
      | inr in_b ↦
          rw (differ, in_a, in_b)
            (mark_edge-IsGraph g a b (if ltb a b then a else b) (if ltb a b then b else a) v
              (ground arith) (ground arith) (ground arith))
    ]
  ]
]

-- On a graph with matrix and lists in step, `ifg_add_edge` adds the edge that it is given, if its
-- ends are different nodes of the graph, and no other.
pub interferes-add_edge :
    (g : Ifg) (a b x y : ℕ)
    → IsGraph g
    → interferes (add_edge g a b).0 x y ≡ (is_edge g a b x y || interferes g x y)
unfolding add_edge
interferes-add_edge g a b x y v = elim (Bool-cases (a == b)) [
  | inl same ↦ rw same refl
  | inr differ ↦ elim (Bool-cases (leb g.n a)) [
    | inl out ↦ rw (differ, out) (ground arith)
    | inr in_a ↦ elim (Bool-cases (leb g.n b)) [
      | inl out ↦ rw (differ, in_a, out) (ground arith)
      | inr in_b ↦
          rw (differ, in_a, in_b)
            (interferes-mark_edge g a b (if ltb a b then a else b) (if ltb a b then b else a) x y
                v.laid (ground arith) (ground arith)
              ∙ ground arith)
    ]
  ]
]

ids_of-empty_graph : (n v : ℕ) → ids_of (empty_graph n) v ≡ []
ids_of-empty_graph n v =
    unfold empty_graph in ap (λ (t : AdjList). t.ids) (get_or-replicate n v no_ids)

pub empty_graph-IsGraph : (n : ℕ) → IsGraph (empty_graph n)
empty_graph-IsGraph n = record {
  laid = empty_graph-IsLaidOut n;
  lists = unfold empty_graph in length-replicate n no_ids;
  ascending = λ v lt. subst IsAscending (sym (ids_of-empty_graph n v)) tt;
  in_sync = λ v x lt. ap (elem x) (ids_of-empty_graph n v) ∙ sym (interferes-empty_graph n v x);
}
