-- ===== src/Prelude/Lists.antt =====
-- Lists measured and indexed by native numbers, under the library's names.
use Prim.Native.Nat.{ℕ, zero, suc, ◌+◌, ◌<◌}
use mathlib.Core.Path.{◌∙◌, ◌≡◌, refl, ap}
use mathlib.Core.Logic.{◌↔◌}
use mathlib.Core.Bool.{Bool, true, false, ◌&&◌, ◌||◌}
use mathlib.Core.List.{List, [], ◌∷◌, ◌++◌, map}
use mathlib.Core.Option.{Option, none, some}
use native.Mathlib.Omega.{arith}
use mathlib.Core.Logic.{inl, inr}
use compilador.Prelude.Tests.{Bool-cases, ltb, leb, ◌==◌, if◌then◌else◌}

module _ {ℓ} {A : Type ℓ} where
  abbrev pub length : List A → ℕ
  length [] = 0
  length (x ∷ xs) = suc (length xs)

  abbrev pub get_or : List A → ℕ → A → A
  get_or [] i d = d
  get_or (x ∷ xs) zero d = x
  get_or (x ∷ xs) (suc i) d = get_or xs i d

  abbrev pub get_elem? : List A → ℕ → Option A
  get_elem? [] i = none
  get_elem? (x ∷ xs) zero = some x
  get_elem? (x ∷ xs) (suc i) = get_elem? xs i

  -- A write out of bounds changes nothing.
  abbrev pub set : List A → ℕ → A → List A
  set [] i v = []
  set (x ∷ xs) zero v = v ∷ xs
  set (x ∷ xs) (suc i) v = x ∷ set xs i v

  abbrev pub replicate : ℕ → A → List A
  replicate zero a = []
  replicate (suc n) a = a ∷ replicate n a

  abbrev pub take : ℕ → List A → List A
  take zero xs = []
  take (suc n) [] = []
  take (suc n) (x ∷ xs) = x ∷ take n xs

  abbrev pub drop : ℕ → List A → List A
  drop zero xs = xs
  drop (suc n) [] = []
  drop (suc n) (x ∷ xs) = drop n xs

  abbrev pub get_last? : List A → Option A
  get_last? [] = none
  get_last? (x ∷ []) = some x
  get_last? (x ∷ y ∷ xs) = get_last? (y ∷ xs)

  pub length-append : (xs ys : List A) → length (xs ++ ys) ≡ length xs + length ys
  length-append [] ys = omega arith
  length-append (x ∷ xs) ys = omega (arith, length-append xs ys)

  pub length-set : (xs : List A) (i : ℕ) (v : A) → length (set xs i v) ≡ length xs
  length-set [] i v = refl
  length-set (x ∷ xs) zero v = refl
  length-set (x ∷ xs) (suc i) v = ap suc (length-set xs i v)

  pub length-replicate : (n : ℕ) (a : A) → length (replicate n a) ≡ n
  length-replicate zero a = refl
  length-replicate (suc n) a = ap suc (length-replicate n a)

  pub get_or-replicate : (n i : ℕ) (a : A) → get_or (replicate n a) i a ≡ a
  get_or-replicate zero i a = refl
  get_or-replicate (suc n) zero a = refl
  get_or-replicate (suc n) (suc i) a = get_or-replicate n i a

  -- A read after a write in bounds.
  pub get_or-replicate_at : (n i : ℕ) (a d : A) → i < n → get_or (replicate n a) i d ≡ a
  get_or-replicate_at zero i a d h = absurd (omega arith)
  get_or-replicate_at (suc n) zero a d h = refl
  get_or-replicate_at (suc n) (suc i) a d h = get_or-replicate_at n i a d (omega arith)

  pub get_or-set :
      (xs : List A) (i j : ℕ) (v d : A)
      → i < length xs
      → get_or (set xs i v) j d ≡ (if i == j then v else get_or xs j d)
  get_or-set [] i j v d h = absurd (omega arith)
  get_or-set (x ∷ xs) zero zero v d h = refl
  get_or-set (x ∷ xs) zero (suc j) v d h = ground arith
  get_or-set (x ∷ xs) (suc i) zero v d h = ground arith
  get_or-set (x ∷ xs) (suc i) (suc j) v d h = ground (arith, get_or-set xs i j v d)

  pub get_or-set_ne :
      (xs : List A) (i j : ℕ) (v d : A) → (i == j) ≡ false → get_or (set xs i v) j d ≡ get_or xs j d
  get_or-set_ne [] i j v d h = refl
  get_or-set_ne (x ∷ xs) zero zero v d h = cc
  get_or-set_ne (x ∷ xs) zero (suc j) v d h = refl
  get_or-set_ne (x ∷ xs) (suc i) zero v d h = refl
  get_or-set_ne (x ∷ xs) (suc i) (suc j) v d h = get_or-set_ne xs i j v d (ground arith)

-- A field that the new element shares with the old one is the same everywhere.
pub get_or-set_field {ℓ κ} :
    {A : Type ℓ} {B : Type κ} (field : A → B) (xs : List A) (i j : ℕ) (v d : A)
    → i < length xs
    → field v ≡ field (get_or xs i d)
    → field (get_or (set xs i v) j d) ≡ field (get_or xs j d)
get_or-set_field field xs i j v d lt same =
    ap field (get_or-set xs i j v d lt) ∙ elim (Bool-cases (i == j)) [
      | inl here ↦
          let e : i ≡ j = ground arith in rw here (same ∙ ap (λ k. field (get_or xs k d)) e)
      | inr other ↦ rw other refl
    ]

-- A predicate that holds of every element.
abbrev pub All {ℓ κ} : {A : Type ℓ} → (A → Type κ) → List A → Type κ
All P [] = Unit
All P (x ∷ xs) = P x × All P xs

pub All-set {ℓ κ} :
    {A : Type ℓ} (P : A → Type κ) (xs : List A) (i : ℕ) (v : A)
    → All P xs
    → P v
    → All P (set xs i v)
All-set P [] i v h p = tt
All-set P (x ∷ xs) zero v h p = (p, h.1)
All-set P (x ∷ xs) (suc i) v h p = (h.0, All-set P xs i v h.1 p)

pub All-replicate {ℓ κ} :
    {A : Type ℓ} (P : A → Type κ) (n : ℕ) (v : A) → P v → All P (replicate n v)
All-replicate P zero v p = tt
All-replicate P (suc n) v p = (p, All-replicate P n v p)

pub All-get_or {ℓ κ} :
    {A : Type ℓ} (P : A → Type κ) (xs : List A) (i : ℕ) (d : A) → All P xs → P d → P (get_or xs i d)
All-get_or P [] i d h p = p
All-get_or P (x ∷ xs) zero d h p = h.0
All-get_or P (x ∷ xs) (suc i) d h p = All-get_or P xs i d h.1 p

pub All-get_or_lt {ℓ κ} :
    {A : Type ℓ} (P : A → Type κ) (xs : List A) (i : ℕ) (d : A)
    → All P xs
    → i < length xs
    → P (get_or xs i d)
All-get_or_lt P [] i d h lt = absurd (omega arith)
All-get_or_lt P (x ∷ xs) zero d h lt = h.0
All-get_or_lt P (x ∷ xs) (suc i) d h lt = All-get_or_lt P xs i d h.1 (omega arith)

pub All-append {ℓ κ} :
    {A : Type ℓ} (P : A → Type κ) (xs ys : List A) → All P xs → All P ys → All P (xs ++ ys)
All-append P [] ys a b = b
All-append P (x ∷ xs) ys a b = (a.0, All-append P xs ys a.1 b)

-- Does `a` occur in the list?
abbrev pub elem : ℕ → List ℕ → Bool
elem a [] = false
elem a (x ∷ xs) = a == x || elem a xs

pub elem-append : (a : ℕ) (xs ys : List ℕ) → elem a (xs ++ ys) ≡ (elem a xs || elem a ys)
elem-append a [] ys = refl
elem-append a (x ∷ xs) ys = ground (arith, elem-append a xs ys)

-- `strcmp(a, b) == 0`, on the bytes before the NUL.
abbrev pub bytes_eq : List ℕ → List ℕ → Bool
bytes_eq [] [] = true
bytes_eq [] (y ∷ b) = false
bytes_eq (x ∷ a) [] = false
bytes_eq (x ∷ a) (y ∷ b) = x == y && bytes_eq a b

pub bytes_eq_iff : (a b : List ℕ) → (bytes_eq a b ≡ true) ↔ (a ≡ b)
bytes_eq_iff [] [] = (λ _. refl, λ _. refl)
bytes_eq_iff [] (y ∷ b) = (λ h. cc, λ h. cc)
bytes_eq_iff (x ∷ a) [] = (λ h. cc, λ h. cc)
bytes_eq_iff (x ∷ a) (y ∷ b) = ground (arith, bytes_eq_iff a b)

-- The number of `x < n` with `p x`.
abbrev pub count_below : ℕ → (ℕ → Bool) → ℕ
count_below zero p = 0
count_below (suc n) p = (if p n then 1 else 0) + count_below n p

pub count_below_congr :
    (n : ℕ) (p q : ℕ → Bool) → ((x : ℕ) → x < n → p x ≡ q x) → count_below n p ≡ count_below n q
count_below_congr zero p q h = refl
count_below_congr (suc n) p q h =
    let rest = count_below_congr n p q (λ x lt. h x (omega arith)) in
    ground (arith, h n (omega arith))

-- Taking one element out of a predicate.
pub count_below-out :
    (n a : ℕ) (p q : ℕ → Bool)
    → a < n
    → p a ≡ true
    → q a ≡ false
    → ((x : ℕ) → x < n → (x == a) ≡ false → q x ≡ p x)
    → suc (count_below n q) ≡ count_below n p
count_below-out zero a p q lt pa qa same = absurd (omega arith)
count_below-out (suc n) a p q lt pa qa same = elim (Bool-cases (a == n)) [
  | inl top ↦
      let e : a ≡ n = ground arith in
      let rest = count_below_congr n q p (λ x l. same x (omega arith) (ground arith)) in
      let pn : p n ≡ true = rw e at pa in
      let qn : q n ≡ false = rw e at qa in rw (pn, qn) (omega arith)
  | inr lower ↦
      let rest = count_below-out n a p q (ground arith) pa qa (λ x l. same x (omega arith)) in
      rw (same n (omega arith) (ground arith)) (omega arith)
]

-- `n` ids counted from `from`: 0, 1, .., n - 1 where that is 0.
abbrev pub ids_from : ℕ → ℕ → List ℕ
ids_from from zero = []
ids_from from (suc n) = from ∷ ids_from (from + 1) n

pub length-ids_from : (from n : ℕ) → length (ids_from from n) ≡ n
length-ids_from from zero = refl
length-ids_from from (suc n) = ap suc (length-ids_from (from + 1) n)

pub get_or-ids_from : (from n i d : ℕ) → i < n → get_or (ids_from from n) i d ≡ from + i
get_or-ids_from from zero i d h = absurd (omega arith)
get_or-ids_from from (suc n) zero d h = omega arith
get_or-ids_from from (suc n) (suc i) d h =
    omega (arith, get_or-ids_from (from + 1) n i d (omega arith))

pub elem-ids_from : (from n v : ℕ) → elem v (ids_from from n) ≡ (leb from v && ltb v (from + n))
elem-ids_from from zero v = ground arith
elem-ids_from from (suc n) v = ground (arith, elem-ids_from (from + 1) n v)

pub get_or-map :
    {A : Type 0} (f : ℕ → A) (xs : List ℕ) (i : ℕ) (d : A) (e : ℕ)
    → i < length xs
    → get_or (map f xs) i d ≡ f (get_or xs i e)
get_or-map f [] i d e h = absurd (omega arith)
get_or-map f (x ∷ xs) zero d e h = refl
get_or-map f (x ∷ xs) (suc i) d e h = get_or-map f xs i d e (omega arith)

pub length-map {ℓ} : {A : Type ℓ} (f : ℕ → A) (xs : List ℕ) → length (map f xs) ≡ length xs
length-map f [] = refl
length-map f (x ∷ xs) = ap suc (length-map f xs)

pub count_below-none : (n : ℕ) → count_below n (λ x. false) ≡ 0
count_below-none zero = refl
count_below-none (suc n) = omega (arith, count_below-none n)
