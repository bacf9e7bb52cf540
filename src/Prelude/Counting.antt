-- ===== src/Prelude/Counting.antt =====
-- Counting: how many numbers below a bound satisfy a test, lists without repetitions, and sums.
use Prim.Native.Nat.{ℕ, zero, suc, ◌+◌, ◌*◌, ◌≤◌, ◌<◌}
use mathlib.Core.Path.{◌≡◌, refl, ap, sym, subst, ◌∙◌}
use mathlib.Core.Logic.{inl, inr}
use mathlib.Core.Bool.{Bool, true, false}
use mathlib.Core.List.{List, [], ◌∷◌, ◌++◌, reverse, reverse-cons}
use native.Mathlib.Omega.{arith}
use compilador.Prelude.Tests.{Bool-cases, ltb, ◌==◌, if◌then◌else◌}
use compilador.Prelude.Lists.{length, elem, elem-append, count_below, count_below-none}

pub count_below-le_bound : (n : ℕ) (p : ℕ → Bool) → count_below n p ≤ n
count_below-le_bound zero p = omega arith
count_below-le_bound (suc n) p = ground (arith, count_below-le_bound n p)

-- A weaker test counts at least as many.
pub count_below_mono :
    (n : ℕ) (p q : ℕ → Bool)
    → ((x : ℕ) → p x ≡ true → q x ≡ true)
    → count_below n p ≤ count_below n q
count_below_mono zero p q h = omega arith
count_below_mono (suc n) p q h = ground (arith, count_below_mono n p q h, h n)

-- Equal counts of a test and a weaker one make them the same below the bound.
pub count_below_eq :
    (n : ℕ) (p q : ℕ → Bool)
    → ((x : ℕ) → p x ≡ true → q x ≡ true)
    → count_below n q ≤ count_below n p
    → (x : ℕ) → x < n
    → p x ≡ q x
count_below_eq zero p q h le x lt = absurd (omega arith)
count_below_eq (suc n) p q h le x lt = elim (Bool-cases (x == n)) [
  | inl top ↦
      let e : x ≡ n = ground arith in
      let same : p n ≡ q n = ground (arith, count_below_mono n p q h, h n) in
      ap p e ∙ same ∙ ap q (sym e)
  | inr lower ↦ count_below_eq n p q h (ground (arith, h n)) x (ground arith)
]

abbrev pub Distinct : List ℕ → Type 0
Distinct [] = Unit
Distinct (x ∷ xs) = (elem x xs ≡ false) × Distinct xs

pub Distinct-append :
    (xs : List ℕ) (x : ℕ) → Distinct xs → elem x xs ≡ false → Distinct (xs ++ x ∷ [])
Distinct-append [] x d h = (refl, tt)
Distinct-append (y ∷ ys) x d h =
    (ground (arith, elem-append y ys (x ∷ [])), Distinct-append ys x d.1 (ground arith))

pub elem-reverse : (a : ℕ) (xs : List ℕ) → elem a (reverse xs) ≡ elem a xs
elem-reverse a [] = refl
elem-reverse a (x ∷ xs) =
    ap (elem a) (reverse-cons x xs)
    ∙ ground (arith, elem-append a (reverse xs) (x ∷ []), elem-reverse a xs)

pub Distinct-reverse : (xs : List ℕ) → Distinct xs → Distinct (reverse xs)
Distinct-reverse [] d = tt
Distinct-reverse (x ∷ xs) d =
    subst Distinct (sym (reverse-cons x xs))
      (Distinct-append (reverse xs) x (Distinct-reverse xs d.1) (elem-reverse x xs ∙ d.0))

pub count_below-cons :
    (n a : ℕ) (xs : List ℕ)
    → elem a xs ≡ false
    → count_below n (λ x. elem x (a ∷ xs))
      ≡ (if ltb a n then 1 else 0) + count_below n (λ x. elem x xs)
count_below-cons zero a xs h = ground arith
count_below-cons (suc n) a xs h = ground (arith, count_below-cons n a xs h, elem_same xs a n)
  where
    elem_same : (xs : List ℕ) (a n : ℕ) → (n == a) ≡ true → elem n xs ≡ elem a xs
    elem_same xs a n e = ap (λ t. elem t xs) (ground arith)

-- A list without repetitions counts its members.
pub length-Distinct :
    (n : ℕ) (xs : List ℕ)
    → Distinct xs
    → ((x : ℕ) → elem x xs ≡ true → x < n)
    → length xs ≡ count_below n (λ x. elem x xs)
length-Distinct n [] d h = sym (count_below-none n)
length-Distinct n (x ∷ xs) d h =
    let rest = length-Distinct n xs d.1 (λ y e. h y (ground arith)) in
    let lt : x < n = h x (ground arith) in ground (arith, count_below-cons n x xs d.0)

pub length-Distinct_le :
    (n : ℕ) (xs : List ℕ) → Distinct xs → ((x : ℕ) → elem x xs ≡ true → x < n) → length xs ≤ n
length-Distinct_le n xs d h =
    omega (arith, length-Distinct n xs d h, count_below-le_bound n (λ x. elem x xs))

abbrev pub sum_below : ℕ → (ℕ → ℕ) → ℕ
sum_below zero f = 0
sum_below (suc n) f = f n + sum_below n f

pub sum_below_mono :
    (n : ℕ) (f g : ℕ → ℕ) → ((x : ℕ) → x < n → f x ≤ g x) → sum_below n f ≤ sum_below n g
sum_below_mono zero f g h = omega arith
sum_below_mono (suc n) f g h =
    omega (arith, h n (omega arith), sum_below_mono n f g (λ x lt. h x (omega arith)))

-- One summand falls, and none grows.
pub sum_below-lt :
    (n a : ℕ) (f g : ℕ → ℕ)
    → a < n
    → f a < g a
    → ((x : ℕ) → x < n → f x ≤ g x)
    → sum_below n f < sum_below n g
sum_below-lt zero a f g lt less h = absurd (omega arith)
sum_below-lt (suc n) a f g lt less h = elim (Bool-cases (a == n)) [
  | inl top ↦
      let e : a ≡ n = ground arith in
      let here : f n < g n = rw e at less in
      omega (arith, here, sum_below_mono n f g (λ x l. h x (omega arith)))
  | inr lower ↦ omega (
    arith,
    h n (omega arith),
    sum_below-lt n a f g (ground arith) less (λ x l. h x (omega arith)),
  )
]

pub sum_below-le_const : (n k : ℕ) (f : ℕ → ℕ) → ((x : ℕ) → x < n → f x ≤ k) → sum_below n f ≤ n * k
sum_below-le_const zero k f h = omega arith
sum_below-le_const (suc n) k f h =
    grind (arith, h n (omega arith), sum_below-le_const n k f (λ x lt. h x (omega arith)))
