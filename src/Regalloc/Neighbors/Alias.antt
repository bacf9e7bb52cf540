-- ===== src/Regalloc/Neighbors/Alias.antt =====
-- The map `alias` of regalloc_build as a forest, and `get_alias` on it.
use compilador.Prelude.{
  ℕ, zero, suc, ◌+◌, ◌≤◌, ◌<◌, ◌≡◌, refl, ◌∙◌, Bool, true, false, not, ◌&&◌, List, arith, ◌==◌,
  if◌then◌else◌, get_or, set, length, length-set, get_or-set, Bool-cases, inl, inr, count_below,
  ids_from, length-ids_from, get_or-ids_from, count_below_congr, count_below-out,
}
use compilador.Regalloc.Neighbors.{walk, get_alias}

abbrev pub is_root : List ℕ → ℕ → Bool
is_root alias v = get_or alias v 0 == v

-- `m` merges were made: they bound the chains, and each took one root away.
pub record IsForest (n m : ℕ) (alias : List ℕ) : Type 0 where
  pub width : length alias ≡ n
  pub inside : (v : ℕ) → v < n → get_or alias v 0 < n
  pub ends : (v : ℕ) → v < n → is_root alias (walk m alias n v) ≡ true
  pub counted : count_below n (is_root alias) + m ≡ n

walk-root : (f : ℕ) (alias : List ℕ) (n v : ℕ) → is_root alias v ≡ true → walk f alias n v ≡ v
unfolding walk
walk-root zero alias n v h = refl
walk-root (suc f) alias n v h = ground arith

walk_step :
    (f : ℕ) (alias : List ℕ) (n v : ℕ)
    → v < n
    → walk (suc f) alias n v
      ≡ (if get_or alias v 0 == v then v else walk f alias n (get_or alias v 0))
unfolding walk
walk_step f alias n v h = ground arith

walk-lt :
    (f : ℕ) (alias : List ℕ) (n v : ℕ)
    → ((w : ℕ) → w < n → get_or alias w 0 < n)
    → v < n
    → walk f alias n v < n
unfolding walk
walk-lt zero alias n v inside h = h
walk-lt (suc f) alias n v inside h =
    ground (arith, walk-lt f alias n (get_or alias v 0) inside (inside v h))

-- More rounds change nothing once the end is reached.
walk-more :
    (m f : ℕ) (alias : List ℕ) (n v : ℕ)
    → is_root alias (walk m alias n v) ≡ true
    → m ≤ f
    → walk f alias n v ≡ walk m alias n v
unfolding walk
walk-more zero f alias n v h le = walk-root f alias n v h
walk-more (suc m) zero alias n v h le = absurd (omega arith)
walk-more (suc m) (suc f) alias n v h le = ground (arith, walk-more m f alias n (get_or alias v 0))

module _ {n m : ℕ} (alias : List ℕ) (z : IsForest n m alias) where
  le_n : m ≤ n
  le_n = omega (arith, z.counted)

  pub get_alias-lt : (v : ℕ) → v < n → get_alias alias n v < n
  unfolding get_alias
  get_alias-lt v h = walk-lt n alias n v z.inside h

  pub get_alias-root : (v : ℕ) → v < n → is_root alias (get_alias alias n v) ≡ true
  unfolding get_alias
  get_alias-root v h = rw (walk-more m n alias n v (z.ends v h) le_n) (z.ends v h)

  pub get_alias_self : (v : ℕ) → is_root alias v ≡ true → get_alias alias n v ≡ v
  unfolding get_alias
  get_alias_self v h = walk-root n alias n v h

  pub get_alias_idem :
      (v : ℕ) → v < n → get_alias alias n (get_alias alias n v) ≡ get_alias alias n v
  get_alias_idem v h = get_alias_self (get_alias alias n v) (get_alias-root v h)

count_below-all : (n : ℕ) → count_below n (λ _. true) ≡ n
count_below-all zero = refl
count_below-all (suc n) = omega (arith, count_below-all n)

-- The identity map.
pub ids-IsForest : (n : ℕ) → IsForest n 0 (ids_from 0 n)
ids-IsForest n = record {
  width = length-ids_from 0 n;
  inside = λ v h. rw (get_or-ids_from 0 n v 0 h) (omega arith);
  ends = λ v h. unfold walk in rw (get_or-ids_from 0 n v 0 h) (ground arith);
  counted = omega (
    arith,
    count_below_congr n (is_root (ids_from 0 n)) (λ _. true)
        (λ v h. rw (get_or-ids_from 0 n v 0 h) (ground arith)),
    count_below-all n,
  );
}

-- Merging one root into another keeps a forest.
module _ {n m : ℕ} (alias : List ℕ) (z : IsForest n m alias) (a b : ℕ) (lt_a : a < n) (lt_b : b < n)
    (root_a : is_root alias a ≡ true) (root_b : is_root alias b ≡ true)
    (differ : (a == b) ≡ false) where
  abbrev merged : List ℕ
  merged = set alias b a

  read : (v : ℕ) → get_or merged v 0 ≡ (if b == v then a else get_or alias v 0)
  read v = get_or-set alias b v a 0 (omega (arith, z.width))

  root-merged : (v : ℕ) → is_root merged v ≡ (not (b == v) && is_root alias v)
  root-merged v = ground (arith, read v)

  -- A chain that ended in `b` goes on to `a`, and all others are as before.
  walk-merged :
      (k v : ℕ)
      → v < n
      → is_root alias (walk k alias n v) ≡ true
      → walk (suc k) merged n v ≡ (if walk k alias n v == b then a else walk k alias n v)
  walk-merged zero v h r = unfold walk in ground (arith, read v)
  walk-merged (suc k) v h r = elim (Bool-cases (is_root alias v)) [
    | inl root ↦
        let stay = walk-root (suc k) alias n v root in
        elim (Bool-cases (v == b)) [
          | inl hit ↦
              rw (stay, hit, walk_step (suc k) merged n v h, read v)
                (ground (arith, walk-root (suc k) merged n a (root-merged a ∙ ground arith)))
          | inr miss ↦
              rw (stay, miss, walk-root (suc (suc k)) merged n v (root-merged v ∙ ground arith))
                refl
        ]
    | inr inner ↦
        let go = walk_step k alias n v h in
        let next = get_or alias v 0 in
        let same : get_or merged v 0 ≡ next = ground (arith, read v) in
        let at_next : walk (suc k) alias n v ≡ walk k alias n next = ground arith in
        let ih = walk-merged k next (z.inside v h) (rw at_next at r) in
        rw (walk_step (suc k) merged n v h, same, inner, at_next) ih
  ]

  pub merged-IsForest : IsForest n (suc m) merged
  merged-IsForest = record {
    width = length-set alias b a ∙ z.width;
    inside = λ v h. rw (read v) (ground (arith, z.inside v h));
    ends = λ v h. rw (walk-merged m v h (z.ends v h), root-merged) (ground (arith, z.ends v h));
    counted = omega (
      arith,
      z.counted,
      count_below-out n b (is_root alias) (is_root merged) lt_b root_b
          (root-merged b ∙ ground arith) (λ x _ ne. root-merged x ∙ ground arith),
    );
  }

  -- In a forest, after one root is merged into another, a node has the latter for its
  -- representative where it had the former, and its old one otherwise.
  pub get_alias-merged :
      (v : ℕ)
      → v < n
      → get_alias merged n v ≡ (if get_alias alias n v == b then a else get_alias alias n v)
  get_alias-merged v h =
      unfold get_alias in
      (walk-more (suc m) n merged n v (merged-IsForest.ends v h) (le_n merged merged-IsForest)
        ∙ walk-merged m v h (z.ends v h)
        ∙ rw (walk-more m n alias n v (z.ends v h) (le_n alias z)) refl)
