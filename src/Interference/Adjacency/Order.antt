-- ===== src/Interference/Adjacency/Order.antt =====
-- The binary search and the insertion on an ascending list, and the capacity.
use compilador.Prelude.{
  ℕ, zero, suc, ◌+◌, ◌-◌, ◌*◌, ◌/◌, ◌%◌, ◌≤◌, ◌<◌, ◌≡◌, refl, ap, true, false, ◌||◌, List, [], ◌∷◌,
  arith, ltb, ◌==◌, if◌then◌else◌, u32_mod, get_or, length, elem, Bool-cases, inl, inr,
}
use compilador.Interference.Adjacency.{
  AdjList, adj_grow, grow_loop, search_point, insert_at, adj_insert_sorted,
}

abbrev pub IsAscending : List ℕ → Type 0
IsAscending [] = Unit
IsAscending (x ∷ xs) = ((y : ℕ) → elem y xs ≡ true → x < y) × IsAscending xs

-- The number of ids before the place of `id`.
rank : List ℕ → ℕ → ℕ
rank [] id = 0
rank (x ∷ xs) id = if ltb x id then suc (rank xs id) else 0

elem-get_or : (xs : List ℕ) (i : ℕ) → i < length xs → elem (get_or xs i 0) xs ≡ true
elem-get_or [] i h = absurd (omega arith)
elem-get_or (x ∷ xs) zero h = ground arith
elem-get_or (x ∷ xs) (suc i) h = ground (arith, elem-get_or xs i)

rank-le : (xs : List ℕ) (id : ℕ) → rank xs id ≤ length xs
unfolding rank
rank-le [] id = omega arith
rank-le (x ∷ xs) id = ground (arith, rank-le xs id)

get_or-lt_rank :
    (xs : List ℕ) (id i : ℕ)
    → IsAscending xs
    → i < length xs
    → ltb (get_or xs i 0) id ≡ ltb i (rank xs id)
unfolding rank
get_or-lt_rank [] id i s h = absurd (omega arith)
get_or-lt_rank (x ∷ xs) id zero s h = ground arith
get_or-lt_rank (x ∷ xs) id (suc i) s h = ground (
  arith,
  get_or-lt_rank xs id i s.1 (omega arith),
  s.0 (get_or xs i 0) (elem-get_or xs i (omega arith)),
)

-- Within enough rounds the loop ends at the place of `id`.
search_point-eq-rank :
    (fuel : ℕ) (xs : List ℕ) (id lo hi : ℕ)
    → IsAscending xs
    → lo ≤ rank xs id
    → rank xs id ≤ hi
    → hi ≤ length xs
    → hi - lo ≤ fuel
    → search_point fuel xs id lo hi ≡ rank xs id
unfolding search_point
search_point-eq-rank zero xs id lo hi s a b c f = omega arith
search_point-eq-rank (suc fuel) xs id lo hi s a b c f = elim (Bool-cases (ltb lo hi)) [
  | inr done ↦ ground arith
  | inl more ↦
      let mid = lo + (hi - lo) / 2 in
      let inside : mid < hi = ground arith in
      let test = get_or-lt_rank xs id mid s (omega arith) in
      elim (Bool-cases (ltb mid (rank xs id))) [
        | inl right ↦
            rw (more, test, right)
              (search_point-eq-rank fuel xs id (mid + 1) hi s (ground arith) b c (ground arith))
        | inr left ↦
            rw (more, test, left)
              (search_point-eq-rank fuel xs id lo mid s a (ground arith) (ground arith)
                (ground arith))
      ]
]

elem-insert_at : (xs : List ℕ) (i id y : ℕ) → elem y (insert_at xs i id) ≡ (y == id || elem y xs)
unfolding insert_at
elem-insert_at [] zero id y = refl
elem-insert_at (x ∷ xs) zero id y = refl
elem-insert_at [] (suc i) id y = refl
elem-insert_at (x ∷ xs) (suc i) id y = ground (arith, elem-insert_at xs i id y)

length-insert_at : (xs : List ℕ) (i id : ℕ) → length (insert_at xs i id) ≡ suc (length xs)
unfolding insert_at
length-insert_at [] zero id = refl
length-insert_at (x ∷ xs) zero id = refl
length-insert_at [] (suc i) id = refl
length-insert_at (x ∷ xs) (suc i) id = ap suc (length-insert_at xs i id)

insert_at-IsAscending :
    (xs : List ℕ) (id : ℕ)
    → IsAscending xs
    → elem id xs ≡ false
    → IsAscending (insert_at xs (rank xs id) id)
unfolding rank insert_at
insert_at-IsAscending [] id s h = (λ y e. cc, tt)
insert_at-IsAscending (x ∷ xs) id s h = elim (Bool-cases (ltb x id)) [
  | inl below ↦ rw below (
    λ y e. ground (arith, s.0 y, elem-insert_at xs (rank xs id) id y),
    insert_at-IsAscending xs id s.1 (ground arith),
  )
  | inr above ↦ rw above (λ y e. ground (arith, s.0 y), s)
]

adj_grow-ids : (a : AdjList) (need : ℕ) → (adj_grow a need).ids ≡ a.ids
unfolding adj_grow
adj_grow-ids a need = ground arith

grow_loop_enough : (fuel ncap need : ℕ) → need ≤ ncap → grow_loop fuel ncap need ≡ ncap
unfolding grow_loop
grow_loop_enough zero ncap need h = refl
grow_loop_enough (suc fuel) ncap need h = ground arith

adj_grow_room :
    (a : AdjList) (need : ℕ) → need ≤ a.cap + 1 → a.cap < 2147483648 → need ≤ (adj_grow a need).cap
unfolding adj_grow
adj_grow_room a need h small =
    let start = if a.cap == 0 then 4 else a.cap * 2 % u32_mod in
    let enough : need ≤ start = ground arith in
    ground (arith, grow_loop_enough 32 start need enough)

-- Into an ascending list without the id, insertion adds the id, changes nothing else and keeps the
-- order.
pub adj_insert_sorted_lem :
    (a : AdjList) (id : ℕ)
    → IsAscending a.ids
    → elem id a.ids ≡ false
    → IsAscending (adj_insert_sorted a id).ids
      × ((y : ℕ) → elem y (adj_insert_sorted a id).ids ≡ (y == id || elem y a.ids))
      × (length (adj_insert_sorted a id).ids ≡ suc (length a.ids))
unfolding adj_insert_sorted
adj_insert_sorted_lem a id s h =
    let ids_kept = adj_grow-ids a (length a.ids + 1) in
    let place =
      search_point-eq-rank (length a.ids) a.ids id 0 (length a.ids) s (omega arith)
        (rank-le a.ids id) (omega arith) (omega arith) in
    rw (ids_kept, place)
      (
        insert_at-IsAscending a.ids id s h,
        λ y. elem-insert_at a.ids (rank a.ids id) id y,
        length-insert_at a.ids (rank a.ids id) id,
      )

-- Where the ids fit the capacity and that is below 2 ^ 31, they fit the capacity after an
-- insertion.
pub adj_insert_sorted_room :
    (a : AdjList) (id : ℕ)
    → length a.ids ≤ a.cap
    → a.cap < 2147483648
    → length (adj_insert_sorted a id).ids ≤ (adj_insert_sorted a id).cap
unfolding adj_insert_sorted
adj_insert_sorted_room a id room small =
    let grown = adj_grow a (length a.ids + 1) in
    let ids_kept = adj_grow-ids a (length a.ids + 1) in
    omega (
      arith,
      length-insert_at grown.ids (search_point (length a.ids) grown.ids id 0 (length a.ids)) id,
      ap length ids_kept,
      adj_grow_room a (length a.ids + 1) (omega arith) small,
    )
