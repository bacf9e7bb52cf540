-- ===== src/VregSet/Members.antt =====
-- The loop over the set bits of a word, `ctz` and `word &= word - 1`, against membership.
use compilador.Prelude.{
  ℕ, zero, suc, ◌+◌, ◌-◌, ◌*◌, ◌/◌, ◌%◌, ◌^◌, ◌≤◌, ◌<◌, bit_and, ◌≡◌, refl, ◌∙◌, ap, Bool, true,
  false, not, ◌&&◌, ◌||◌, List, [], ◌∷◌, arith, ◌==◌, ==_iff, leb, inl, inr, Bool-cases, get_or,
  length, elem, elem-append,
}
use compilador.Prelude.Bits.{bit, bit-zero, bit-bit_and, bit_and-le, bit_and_step, bit-out}
use compilador.VregSet.{VregSet, words_needed, has, ctz, word_members, members_from, members}
use compilador.VregSet.Laws.{IsSized, words_needed-cap, has-bit}
use mathlib.Core.Path.{ap₂}
use native.Mathlib.Nat.{pow-suc}

-- The number of set bits among the first `n`.
count_bits : ℕ → ℕ → ℕ
count_bits zero w = 0
count_bits (suc n) w = w % 2 + count_bits n (w / 2)

count_bits-le : (n w : ℕ) → count_bits n w ≤ n
unfolding count_bits
count_bits-le zero w = omega arith
count_bits-le (suc n) w = omega (arith, count_bits-le n (w / 2))

bit-ctz : (n w : ℕ) → 0 < w → w < 2 ^ n → bit w (ctz n w) ≡ true
unfolding bit ctz
bit-ctz zero w p h = absurd (omega arith)
bit-ctz (suc n) w p h = elim (Bool-cases (w % 2 == 1)) [
  | inl odd ↦ rw odd odd
  | inr even ↦ rw even (bit-ctz n (w / 2) (ground arith) (omega (arith, pow-suc 2 n)))
]

half-and_pred : (w : ℕ) → bit_and w (w - 1) / 2 ≡ bit_and (w / 2) ((w - 1) / 2)
half-and_pred w = omega (arith, bit_and_step w (w - 1))

-- `word &= word - 1` clears the lowest set bit and no other.
bit-and_pred :
    (n w k : ℕ) → 0 < w → w < 2 ^ n → bit (bit_and w (w - 1)) k ≡ (bit w k && not (ctz n w == k))
unfolding bit ctz
bit-and_pred zero w k p h = absurd (omega arith)
bit-and_pred (suc n) w zero p h = ground (arith, bit_and_step w (w - 1))
bit-and_pred (suc n) w (suc k) p h = elim (Bool-cases (w % 2 == 1)) [
  | inl odd ↦
      let e : (w - 1) / 2 ≡ w / 2 = ground arith in
      ap (λ t. bit t k) (half-and_pred w ∙ ap (bit_and (w / 2)) e)
      ∙ ground (arith, bit-bit_and (w / 2) (w / 2) k)
  | inr even ↦
      let e : (w - 1) / 2 ≡ w / 2 - 1 = ground arith in
      ap (λ t. bit t k) (half-and_pred w ∙ ap (bit_and (w / 2)) e)
      ∙ ground (arith, bit-and_pred n (w / 2) k (ground arith) (omega (arith, pow-suc 2 n)))
]

count_bits-and_same : (n w : ℕ) → count_bits n (bit_and w w) ≡ count_bits n w
unfolding count_bits
count_bits-and_same zero w = refl
count_bits-and_same (suc n) w =
    let e : bit_and w w / 2 ≡ bit_and (w / 2) (w / 2) = omega (arith, bit_and_step w w) in
    omega (arith, bit_and_step w w, ap (count_bits n) e, count_bits-and_same n (w / 2))

count_bits-and_pred :
    (n w : ℕ) → 0 < w → w < 2 ^ n → suc (count_bits n (bit_and w (w - 1))) ≡ count_bits n w
unfolding count_bits
count_bits-and_pred zero w p h = absurd (omega arith)
count_bits-and_pred (suc n) w p h = elim (Bool-cases (w % 2 == 1)) [
  | inl odd ↦
      let e : (w - 1) / 2 ≡ w / 2 = ground arith in
      let halves =
        ap (count_bits n) (half-and_pred w ∙ ap (bit_and (w / 2)) e)
        ∙ count_bits-and_same n (w / 2) in
      ground (arith, bit_and_step w (w - 1), halves)
  | inr even ↦
      let e : (w - 1) / 2 ≡ w / 2 - 1 = ground arith in
      let halves = ap (count_bits n) (half-and_pred w ∙ ap (bit_and (w / 2)) e) in
      ground (
        arith,
        bit_and_step w (w - 1),
        halves,
        count_bits-and_pred n (w / 2) (ground arith) (omega (arith, pow-suc 2 n)),
      )
]

other_bit :
    (base x c : ℕ) (b : Bool)
    → (x == base + c) ≡ false
    → (leb base x && (b && not (c == x - base))) ≡ (leb base x && b)
other_bit base x c b h = ground arith

lowest_bit : (base x c : ℕ) → (x == base + c) ≡ true → (leb base x ≡ true) × (x - base ≡ c)
lowest_bit base x c h = (ground arith, ground arith)

visit_one :
    (fuel base w x : ℕ)
    → 0 < w
    → w < 2 ^ 64
    → (w == 0) ≡ false
    → elem x (word_members fuel base (bit_and w (w - 1)))
      ≡ (leb base x && bit (bit_and w (w - 1)) (x - base))
    → elem x (word_members (suc fuel) base w) ≡ (leb base x && bit w (x - base))
unfolding word_members
visit_one fuel base w x p h nonzero ih = elim (Bool-cases (x == base + ctz 64 w)) [
  | inl lowest ↦
      let (l, e) = lowest_bit base x (ctz 64 w) lowest in
      rw (nonzero, lowest, l, e, bit-ctz 64 w p h) refl
  | inr other ↦
      rw (nonzero, other)
        (ih
          ∙ ap (λ t. leb base x && t) (bit-and_pred 64 w (x - base) p h)
          ∙ other_bit base x (ctz 64 w) (bit w (x - base)) other)
]

-- The first word or a later one.
position :
    (w x y : ℕ) (ws : List ℕ)
    → y < 2 ^ 64
    → ((leb (w * 64) x && bit y (x - w * 64))
        || (leb ((w + 1) * 64) x && bit (get_or ws (x / 64 - (w + 1)) 0) (x % 64)))
      ≡ (leb (w * 64) x && bit (get_or (y ∷ ws) (x / 64 - w) 0) (x % 64))
position w x y ws h = elim (Bool-cases (leb (w * 64) x)) [
  | inr before ↦ ground arith
  | inl after ↦ elim (Bool-cases (leb ((w + 1) * 64) x)) [
    | inl later ↦
        let e : x / 64 - w ≡ suc (x / 64 - (w + 1)) = ground arith in
        rw (after, later, e, bit-out 64 y (x - w * 64) h (ground arith)) refl
    | inr here ↦
        let e : x / 64 - w ≡ 0 = ground arith in
        let r : x % 64 ≡ x - w * 64 = ground arith in rw (after, here, e, r) (ground arith)
  ]
]

-- With a round for each set bit the loop visits every set bit, and no other id.
elem-word_members :
    (fuel base w x : ℕ)
    → w < 2 ^ 64
    → count_bits 64 w ≤ fuel
    → elem x (word_members fuel base w) ≡ (leb base x && bit w (x - base))
unfolding word_members
elem-word_members zero base w x h f = elim (Bool-cases (w == 0)) [
  | inl none_left ↦
      ground (arith, ap (λ t. bit t (x - base)) ((==_iff w 0).0 none_left), bit-zero (x - base))
  | inr some_left ↦ absurd (omega (arith, count_bits-and_pred 64 w (ground arith) h))
]
elem-word_members (suc fuel) base w x h f = elim (Bool-cases (w == 0)) [
  | inl none_left ↦
      ground (arith, ap (λ t. bit t (x - base)) ((==_iff w 0).0 none_left), bit-zero (x - base))
  | inr some_left ↦ visit_one fuel base w x (ground arith) h some_left (
      elem-word_members fuel base (bit_and w (w - 1)) x
        (omega (arith, bit_and-le w w (w - 1) (omega arith)))
        (omega (arith, count_bits-and_pred 64 w (ground arith) h)))
]

elem-members_from :
    (n w : ℕ) (ws : List ℕ) (x : ℕ)
    → length ws ≡ n
    → ((i : ℕ) → get_or ws i 0 < 2 ^ 64)
    → elem x (members_from n w ws) ≡ (leb (w * 64) x && bit (get_or ws (x / 64 - w) 0) (x % 64))
unfolding members_from
elem-members_from zero w [] x e h = ground (arith, bit-zero (x % 64))
elem-members_from zero w (y ∷ ws) x e h = absurd (omega arith)
elem-members_from (suc n) w [] x e h = absurd (omega arith)
elem-members_from (suc n) w (y ∷ ws) x e h =
    elem-append x (word_members 64 (w * 64) y) (members_from n (w + 1) ws)
    ∙ ap₂ ◌||◌ (elem-word_members 64 (w * 64) y x (h 0) (count_bits-le 64 y))
        (elem-members_from n (w + 1) ws x (omega arith) (λ i. h (suc i)))
    ∙ position w x y ws (h 0)

-- In a well-sized set, the bit loop visits exactly the members.
pub elem-members : {c : ℕ} (s : VregSet) (v : ℕ) → IsSized c s → elem v (members s) ≡ has s v
unfolding members
elem-members s v z =
    let n : words_needed s.cap ≡ length s.words =
      rw (z.cap_eq, z.width)
        (words_needed-cap (length s.words) (omega (arith, z.width, z.small))) in
    rw n (
      elem-members_from (length s.words) 0 s.words v refl z.bounded ∙ ground (arith, has-bit s v z))
