-- ===== src/Regalloc/Simplify/Complete.antt =====
-- The stack that phase 2 leaves, and the rounds of its loop.
use compilador.Prelude.Counting.{count_below-le_bound}
use compilador.Prelude.{
  ℕ, zero, suc, ◌+◌, ◌<◌, ◌≡◌, ◌⊎◌, refl, ◌∙◌, ap, sym, true, false, not, ◌&&◌, ◌||◌, List, [], ◌∷◌,
  none, some, arith, ◌==◌, length, length-set, get_or-set, Bool-cases, Option-cases, inl, inr, elem,
  count_below, count_below-out, ids_from, elem-ids_from, length-ids_from, get_or-ids_from,
  get_or-map, length-map,
}
use compilador.Prelude.Int.{ℤ, pos, negsuc, below, ltb_ℤ}
use compilador.Interference.Matrix.{Ifg}
use compilador.Precolor.{Precolor, precolor_is_fixed}
use compilador.Regalloc.Neighbors.{k_of, get_alias}
use compilador.Regalloc.Simplify.{
  Simp, is_candidate, wdeg_of, find_low, find_best, choose, push_node, simplify_loop, start,
  simplify,
}

find_low-some :
    (pc : Precolor) (st : Simp) (vs : List ℕ) (v : ℕ)
    → find_low pc st vs ≡ some v
    → (elem v vs ≡ true) × (is_candidate pc st v ≡ true)
unfolding find_low
find_low-some pc st [] v h = cc
find_low-some pc st (x ∷ vs) v h =
    elim (Bool-cases (is_candidate pc st x && below (wdeg_of st x) (k_of pc x))) [
      | inl found ↦
          let e : x ≡ v = ground arith in
          (ground arith, ap (is_candidate pc st) (sym e) ∙ ground arith)
      | inr other ↦ let (m, c) = find_low-some pc st vs v (ground arith) in (ground arith, c)
    ]

-- Where loop (a) finds nothing, no candidate is of low degree.
find_low-none :
    (pc : Precolor) (st : Simp) (vs : List ℕ) (v : ℕ)
    → find_low pc st vs ≡ none
    → elem v vs ≡ true
    → is_candidate pc st v ≡ true
    → below (wdeg_of st v) (k_of pc v) ≡ false
unfolding find_low
find_low-none pc st [] v h m c = cc
find_low-none pc st (x ∷ vs) v h m c = elim (Bool-cases (v == x)) [
  | inl here ↦
      let e : x ≡ v = ground arith in
      let cx : is_candidate pc st x ≡ true = ap (is_candidate pc st) e ∙ c in
      let bx : below (wdeg_of st x) (k_of pc x) ≡ false = ground arith in
      ap (λ t. below (wdeg_of st t) (k_of pc t)) (sym e) ∙ bx
  | inr later ↦ find_low-none pc st vs v (ground arith) (ground arith) c
]

-- So its working degree is above the -1 that loop (b) starts from.
not-below : (z : ℤ) (k : ℕ) → below z k ≡ false → ltb_ℤ (negsuc 0) z ≡ true
not-below (pos n) k h = refl
not-below (negsuc n) k h = cc

-- With a candidate in hand loop (b) returns one.
find_best-some :
    (pc : Precolor) (st : Simp) (b : ℕ) (deg : ℤ) (vs : List ℕ)
    → (w : ℕ) × (find_best pc st (some b) deg vs ≡ some w)
      × ((w ≡ b) ⊎ (elem w vs ≡ true) × (is_candidate pc st w ≡ true))
unfolding find_best
find_best-some pc st b deg [] = (b, refl, inl refl)
find_best-some pc st b deg (x ∷ vs) =
    elim (Bool-cases (is_candidate pc st x && ltb_ℤ deg (wdeg_of st x))) [
      | inl better ↦
          let (w, run, found) = find_best-some pc st x (wdeg_of st x) vs in
          let cx : is_candidate pc st x ≡ true = ground arith in
          (
            w,
            rw better run,
            elim found [
              | inl same ↦ inr (ground arith, ap (is_candidate pc st) same ∙ cx)
              | inr (m, c) ↦ inr (ground arith, c)
            ],
          )
      | inr worse ↦
          let (w, run, found) = find_best-some pc st b deg vs in
          (w, rw worse run, elim found [ inl same ↦ inl same | inr (m, c) ↦ inr (ground arith, c) ])
    ]

-- From nothing it returns a candidate, or there is none of a degree above -1.
find_best-none :
    (pc : Precolor) (st : Simp) (vs : List ℕ)
    → ((w : ℕ) × (find_best pc st none (negsuc 0) vs ≡ some w)
        × (elem w vs ≡ true)
        × (is_candidate pc st w ≡ true))
      ⊎ (find_best pc st none (negsuc 0) vs ≡ none)
        × ((v : ℕ)
            → elem v vs ≡ true
            → (is_candidate pc st v && ltb_ℤ (negsuc 0) (wdeg_of st v)) ≡ false)
unfolding find_best
find_best-none pc st [] = inr (refl, λ v m. cc)
find_best-none pc st (x ∷ vs) =
    elim (Bool-cases (is_candidate pc st x && ltb_ℤ (negsuc 0) (wdeg_of st x))) [
      | inl better ↦
          let (w, run, found) = find_best-some pc st x (wdeg_of st x) vs in
          let cx : is_candidate pc st x ≡ true = ground arith in
          let listed : elem w (x ∷ vs) ≡ true = ground arith in
          let fits : is_candidate pc st w ≡ true = elim found [
            | inl same ↦ ap (is_candidate pc st) same ∙ cx
            | inr (m, c) ↦ c
          ] in
          inl (w, rw better run, listed, fits)
      | inr worse ↦ elim (find_best-none pc st vs) [
        | inl (w, run, m, c) ↦ inl (w, rw worse run, ground arith, c)
        | inr (run, all) ↦ inr (
          rw worse run,
          λ v m. elim (Bool-cases (v == x)) [
            | inl here ↦
                let e : v ≡ x = ground arith in
                ap (λ t. is_candidate pc st t && ltb_ℤ (negsuc 0) (wdeg_of st t)) e ∙ worse
            | inr later ↦ all v (ground arith)
          ],
        )
      ]
    ]

-- A round takes a candidate below `n`, or there is none left.
choose-candidate :
    (pc : Precolor) (st : Simp) (n : ℕ)
    → ((v : ℕ) × (choose pc st n ≡ some v) × (v < n) × (is_candidate pc st v ≡ true))
      ⊎ (choose pc st n ≡ none) × ((v : ℕ) → v < n → is_candidate pc st v ≡ false)
unfolding choose
choose-candidate pc st n =
    let ids = ids_from 0 n in
    elim (Option-cases (find_low pc st ids)) [
      | inr (v, low) ↦
          let (m, c) = find_low-some pc st ids v low in
          inl (v, rw (low, choose) refl, ground (arith, elem-ids_from 0 n v), c)
      | inl nothing ↦ elim (find_best-none pc st ids) [
        | inl (w, run, m, c) ↦
            inl (w, rw (nothing, choose) run, ground (arith, elem-ids_from 0 n w), c)
        | inr (run, all) ↦ inr (
          rw (nothing, choose) run,
          λ v lt. elim (Bool-cases (is_candidate pc st v)) [
            | inr out ↦ out
            | inl c ↦
                let m : elem v ids ≡ true = ground (arith, elem-ids_from 0 n v) in
                ground (
                  arith,
                  not-below (wdeg_of st v) (k_of pc v) (find_low-none pc st ids v nothing m c),
                  all v m,
                )
          ],
        )
      ]
    ]

-- What a push does to the candidates.
candidate-push_node :
    (junk : ℕ → ℕ) (g : Ifg) (pc : Precolor) (alias : List ℕ) (n : ℕ) (st : Simp) (v w : ℕ)
    → v < length st.removed
    → is_candidate pc (push_node junk g alias n st v) w ≡ (not (v == w) && is_candidate pc st w)
unfolding push_node is_candidate
candidate-push_node junk g pc alias n st v w h =
    ground (arith, get_or-set st.removed v w true true h)

-- Every node that may be pushed is on the stack or still a candidate, and the stack holds no other.
pub record Accounts (pc : Precolor) (n : ℕ) (first st : Simp) : Type 0 where
  pub width : length st.removed ≡ n
  pub kept : (v : ℕ) → v < n → (elem v st.stack || is_candidate pc st v) ≡ is_candidate pc first v
  pub below_n : (v : ℕ) → elem v st.stack ≡ true → v < n

module _ (junk : ℕ → ℕ) (g : Ifg) (pc : Precolor) (alias : List ℕ) (n : ℕ) (first : Simp) where
  push_node-Accounts :
      (st : Simp) (v : ℕ)
      → Accounts pc n first st
      → v < n
      → is_candidate pc st v ≡ true
      → Accounts pc n first (push_node junk g alias n st v)
  push_node-Accounts st v z lt c =
      let e = candidate-push_node junk g pc alias n st v in
      record {
        width = unfold push_node in length-set st.removed v true ∙ z.width;
        kept = λ w l.
            unfold push_node in
            ground (arith, e w (omega (arith, z.width)), z.kept w l, same st v w c);
        below_n = λ w m. unfold push_node in ground (arith, z.below_n w);
      }
    where
      same :
          (st : Simp) (v w : ℕ)
          → is_candidate pc st v ≡ true
          → (w == v) ≡ true
          → is_candidate pc st w ≡ true
      same st v w c e = ap (is_candidate pc st) (ground arith) ∙ c

  loop_done :
      (fuel : ℕ) (st : Simp)
      → choose pc st n ≡ none
      → simplify_loop junk g pc alias n (suc fuel) st ≡ st
  unfolding simplify_loop
  loop_done fuel st h = rw (h, simplify_loop) refl

  loop_more :
      (fuel : ℕ) (st : Simp) (v : ℕ)
      → choose pc st n ≡ some v
      → simplify_loop junk g pc alias n (suc fuel) st
        ≡ simplify_loop junk g pc alias n fuel (push_node junk g alias n st v)
  unfolding simplify_loop
  loop_more fuel st v h = rw (h, simplify_loop) refl

  -- A round takes one candidate away, so as many rounds as candidates are enough.
  simplify_loop-Accounts :
      (fuel : ℕ) (st : Simp)
      → Accounts pc n first st
      → count_below n (is_candidate pc st) < fuel
      → Accounts pc n first (simplify_loop junk g pc alias n fuel st)
        × ((v : ℕ) → v < n → is_candidate pc (simplify_loop junk g pc alias n fuel st) v ≡ false)
  simplify_loop-Accounts zero st z h = absurd (omega arith)
  simplify_loop-Accounts (suc fuel) st z h = elim (choose-candidate pc st n) [
    | inr (done, all) ↦ rw (loop_done fuel st done) (z, all)
    | inl (v, run, lt, c) ↦
        let e = candidate-push_node junk g pc alias n st v in
        let room : v < length st.removed = omega (arith, z.width) in
        let fewer =
          count_below-out n v (is_candidate pc st) (is_candidate pc (push_node junk g alias n st v))
            lt c (e v room ∙ ground arith) (λ x _ ne. e x room ∙ ground arith) in
        let ih =
          simplify_loop-Accounts fuel (push_node junk g alias n st v)
            (push_node-Accounts st v z lt c) (omega arith) in
        rw (loop_more fuel st v run) ih
  ]

candidate-start :
    (g : Ifg) (pc : Precolor) (alias : List ℕ) (n v : ℕ)
    → v < n
    → is_candidate pc (start g alias n) v
      ≡ ((get_alias alias n v == v) && not (precolor_is_fixed pc v))
unfolding is_candidate start
candidate-start g pc alias n v lt =
    rw
      (
        get_or-map (λ w. not (get_alias alias n w == w)) (ids_from 0 n) v true 0
            (rw (length-ids_from 0 n) lt),
        get_or-ids_from 0 n v 0 lt,
      )
      (ground arith)

simplify-Accounts :
    (junk : ℕ → ℕ) (g : Ifg) (pc : Precolor) (alias : List ℕ) (n : ℕ)
    → Accounts pc n (start g alias n) (simplify junk g pc alias n)
      × ((v : ℕ) → v < n → is_candidate pc (simplify junk g pc alias n) v ≡ false)
unfolding simplify
simplify-Accounts junk g pc alias n =
    let first = start g alias n in
    simplify_loop-Accounts junk g pc alias n first (n + 1) first
      (record {
        width =
            unfold start in
            length-map (λ w. not (get_alias alias n w == w)) (ids_from 0 n) ∙ length-ids_from 0 n;
        kept = λ w l. unfold start in refl;
        below_n = λ w m. unfold start in cc;
      })
      (omega (arith, count_below-le_bound n (is_candidate pc first)))

-- For every register of the function: when the loop has used its rounds, the register is on the
-- stack exactly when it is a representative without a fixed colour.
pub simplify_stack :
    (junk : ℕ → ℕ) (g : Ifg) (pc : Precolor) (alias : List ℕ) (n v : ℕ)
    → v < n
    → elem v (simplify junk g pc alias n).stack
      ≡ ((get_alias alias n v == v) && not (precolor_is_fixed pc v))
simplify_stack junk g pc alias n v lt =
    let (z, all) = simplify-Accounts junk g pc alias n in
    ground (arith, z.kept v lt, all v lt, candidate-start g pc alias n v lt)

pub simplify_stack-lt :
    (junk : ℕ → ℕ) (g : Ifg) (pc : Precolor) (alias : List ℕ) (n v : ℕ)
    → elem v (simplify junk g pc alias n).stack ≡ true
    → v < n
simplify_stack-lt junk g pc alias n = (simplify-Accounts junk g pc alias n).0.below_n
