-- ===== src/VregSet/Union.antt =====
-- Whole sets: `vreg_set_union_into`, `vreg_set_minus_into` and `vreg_set_equal` against membership.
use compilador.Prelude.{
  ℕ, zero, suc, ◌+◌, ◌*◌, ◌/◌, ◌%◌, ◌≤◌, ◌<◌, bit_and, bit_or, ◌≡◌, refl, ◌∙◌, ap, sym, true, false,
  not, ◌&&◌, ◌||◌, List, [], ◌∷◌, arith, ◌↔◌, inl, inr, Bool-cases, ltb, ltb→lt, get_or, length,
}
use compilador.Prelude.Bits.{
  bit, bit-bit_or, bit-bit_and, bit-complement, bit_or-lt, bit_and-le, eq_of_bits, bit-zero,
}
use mathlib.Core.Path.{ap₂}
use compilador.VregSet.{
  VregSet, words_needed, has, complement, union_words, union_into, minus_words, minus_into,
  equal_words, equal, zero_words, clear,
}
use compilador.VregSet.Laws.{IsSized, words_needed-cap, has-bit, has-out}

words_needed-width : {c : ℕ} (s : VregSet) → IsSized c s → words_needed s.cap ≡ length s.words
words_needed-width s z =
    rw (z.cap_eq, z.width) (words_needed-cap (length s.words) (omega (arith, z.width, z.small)))

union_words-get :
    (a b : List ℕ) (i : ℕ)
    → length a ≡ length b
    → get_or (union_words (length a) a b).0 i 0 ≡ bit_or (get_or a i 0) (get_or b i 0)
unfolding union_words
union_words-get [] [] i h = refl
union_words-get [] (y ∷ b) i h = absurd (omega arith)
union_words-get (x ∷ a) [] i h = absurd (omega arith)
union_words-get (x ∷ a) (y ∷ b) zero h = refl
union_words-get (x ∷ a) (y ∷ b) (suc i) h = union_words-get a b i (omega arith)

length-union_words : (n : ℕ) (a b : List ℕ) → length (union_words n a b).0 ≡ length a
unfolding union_words
length-union_words zero a b = refl
length-union_words (suc n) [] b = refl
length-union_words (suc n) (x ∷ a) [] = refl
length-union_words (suc n) (x ∷ a) (y ∷ b) = ap suc (length-union_words n a b)

union_words-changed :
    (n : ℕ) (a b : List ℕ) → (union_words n a b).1 ≡ false → (union_words n a b).0 ≡ a
unfolding union_words
union_words-changed zero a b h = refl
union_words-changed (suc n) [] b h = refl
union_words-changed (suc n) (x ∷ a) [] h = refl
union_words-changed (suc n) (x ∷ a) (y ∷ b) h = ground (arith, union_words-changed n a b)

union_words-same :
    (n : ℕ) (a b : List ℕ) → (union_words n a b).0 ≡ a → (union_words n a b).1 ≡ false
unfolding union_words
union_words-same zero a b h = refl
union_words-same (suc n) [] b h = refl
union_words-same (suc n) (x ∷ a) [] h = refl
union_words-same (suc n) (x ∷ a) (y ∷ b) h = ground (arith, union_words-same n a b)

pub union_into-IsSized :
    {c : ℕ} (d s : VregSet) → IsSized c d → IsSized c s → IsSized c (union_into d s).0
unfolding union_into
union_into-IsSized d s zd zs = record {
  cap_eq = zd.cap_eq;
  width = rw length-union_words zd.width;
  small = zd.small;
  bounded = λ i.
      rw
        (
          words_needed-width d zd,
          union_words-get d.words s.words i (omega (arith, zd.width, zs.width)),
        )
        (bit_or-lt 64 _ _ (zd.bounded i) (zs.bounded i));
}

-- For sets of one capacity, `dst |= src` joins the members.
pub has-union_into :
    {c : ℕ} (d s : VregSet) (v : ℕ)
    → IsSized c d
    → IsSized c s
    → has (union_into d s).0 v ≡ (has d v || has s v)
has-union_into d s v zd zs =
    has-bit (union_into d s).0 v (union_into-IsSized d s zd zs)
    ∙ unfold union_into in
      rw
        (
          words_needed-width d zd,
          union_words-get d.words s.words (v / 64) (omega (arith, zd.width, zs.width)),
          bit-bit_or,
          has-bit d v zd,
          has-bit s v zs,
        )
        refl

-- The flag that it returns is 0 exactly when `dst` is left as it was.
pub union_into_unchanged : (d s : VregSet) → ((union_into d s).1 ≡ false) ↔ ((union_into d s).0 ≡ d)
unfolding union_into
union_into_unchanged d s = (
  λ h. ground (arith, union_words-changed (words_needed d.cap) d.words s.words),
  λ h. union_words-same (words_needed d.cap) d.words s.words (ap (λ (t : VregSet). t.words) h),
)

minus_words-get :
    (a b : List ℕ) (i : ℕ)
    → length a ≡ length b
    → i < length a
    → get_or (minus_words (length a) a b) i 0 ≡ bit_and (get_or a i 0) (complement (get_or b i 0))
unfolding minus_words
minus_words-get [] b i h lt = absurd (omega arith)
minus_words-get (x ∷ a) [] i h lt = absurd (omega arith)
minus_words-get (x ∷ a) (y ∷ b) zero h lt = refl
minus_words-get (x ∷ a) (y ∷ b) (suc i) h lt = minus_words-get a b i (omega arith) (omega arith)

length-minus_words : (n : ℕ) (a b : List ℕ) → length (minus_words n a b) ≡ length a
unfolding minus_words
length-minus_words zero a b = refl
length-minus_words (suc n) [] b = refl
length-minus_words (suc n) (x ∷ a) [] = refl
length-minus_words (suc n) (x ∷ a) (y ∷ b) = ap suc (length-minus_words n a b)

minus_words-le : (n : ℕ) (a b : List ℕ) (i : ℕ) → get_or (minus_words n a b) i 0 ≤ get_or a i 0
unfolding minus_words
minus_words-le zero a b i = omega arith
minus_words-le (suc n) [] b i = omega arith
minus_words-le (suc n) (x ∷ a) [] i = omega arith
minus_words-le (suc n) (x ∷ a) (y ∷ b) zero = bit_and-le x x (complement y) (omega arith)
minus_words-le (suc n) (x ∷ a) (y ∷ b) (suc i) = minus_words-le n a b i

pub minus_into-IsSized : {c : ℕ} (d s : VregSet) → IsSized c d → IsSized c (minus_into d s)
unfolding minus_into
minus_into-IsSized d s zd = record {
  cap_eq = zd.cap_eq;
  width = rw length-minus_words zd.width;
  small = zd.small;
  bounded = λ i. omega (arith, minus_words-le (words_needed d.cap) d.words s.words i, zd.bounded i);
}

-- For sets of one capacity, `dst &= ~src` takes the members of `src` out.
pub has-minus_into :
    {c : ℕ} (d s : VregSet) (v : ℕ)
    → IsSized c d
    → IsSized c s
    → has (minus_into d s) v ≡ (has d v && not (has s v))
has-minus_into {c} d s v zd zs = elim (Bool-cases (ltb v c)) [
  | inl inside ↦
      has-bit (minus_into d s) v (minus_into-IsSized d s zd)
      ∙ unfold minus_into in
        rw
          (
            words_needed-width d zd,
            minus_words-get d.words s.words (v / 64) (omega (arith, zd.width, zs.width))
                (omega (arith, ltb→lt v c inside, zd.width)),
            bit-bit_and,
            bit-complement 64 (get_or s.words (v / 64) 0) (v % 64) (zs.bounded (v / 64))
                (omega arith),
            has-bit d v zd,
            has-bit s v zs,
          )
          refl
  | inr outside ↦
      ground (arith, has-out (minus_into d s) v (minus_into-IsSized d s zd), has-out d v zd)
]

get_or-ext : (a b : List ℕ) → length a ≡ length b → ((i : ℕ) → get_or a i 0 ≡ get_or b i 0) → a ≡ b
get_or-ext [] [] h same = refl
get_or-ext [] (y ∷ b) h same = absurd (omega arith)
get_or-ext (x ∷ a) [] h same = absurd (omega arith)
get_or-ext (x ∷ a) (y ∷ b) h same =
    ap₂ (λ u t. u ∷ t) (same 0) (get_or-ext a b (omega arith) (λ i. same (suc i)))

equal_words-eq :
    (a b : List ℕ) → length a ≡ length b → (equal_words (length a) a b ≡ true) ↔ (a ≡ b)
unfolding equal_words
equal_words-eq [] [] h = (λ _. refl, λ _. refl)
equal_words-eq [] (y ∷ b) h = absurd (omega arith)
equal_words-eq (x ∷ a) [] h = absurd (omega arith)
equal_words-eq (x ∷ a) (y ∷ b) h = ground (arith, equal_words-eq a b (omega arith))

-- The words agree where the members do.
words_of_members :
    {c : ℕ} (a b : VregSet) → IsSized c a → IsSized c b → ((v : ℕ) → has a v ≡ has b v) → a ≡ b
words_of_members a b za zb same =
    let words = get_or-ext a.words b.words (omega (arith, za.width, zb.width)) (λ i.
      eq_of_bits 64 (get_or a.words i 0) (get_or b.words i 0) (za.bounded i) (zb.bounded i) (λ k lt.
        let q : (i * 64 + k) / 64 ≡ i = omega arith in
        let r : (i * 64 + k) % 64 ≡ k = omega arith in
        rw (q, r) at
          (sym (has-bit a (i * 64 + k) za) ∙ same (i * 64 + k) ∙ has-bit b (i * 64 + k) zb))) in
    ground (arith, za.cap_eq, zb.cap_eq)

-- `vreg_set_equal` decides whether two sets of one capacity have the same members.
pub equal_iff :
    {c : ℕ} (a b : VregSet)
    → IsSized c a
    → IsSized c b
    → (equal a b ≡ true) ↔ ((v : ℕ) → has a v ≡ has b v)
unfolding equal
equal_iff a b za zb =
    let words = equal_words-eq a.words b.words (omega (arith, za.width, zb.width)) in
    (
      λ h v.
          has-bit a v za
          ∙ ap (λ t. bit (get_or t (v / 64) 0) (v % 64))
              (words.0 (rw (words_needed-width a za) at h))
          ∙ sym (has-bit b v zb),
      λ same.
          rw (words_needed-width a za)
            (words.1 (ap (λ (t : VregSet). t.words) (words_of_members a b za zb same))),
    )

zero_words-all : (a : List ℕ) (i : ℕ) → get_or (zero_words (length a) a) i 0 ≡ 0
unfolding zero_words
zero_words-all [] i = refl
zero_words-all (x ∷ a) zero = refl
zero_words-all (x ∷ a) (suc i) = zero_words-all a i

length-zero_words : (n : ℕ) (a : List ℕ) → length (zero_words n a) ≡ length a
unfolding zero_words
length-zero_words zero a = refl
length-zero_words (suc n) [] = refl
length-zero_words (suc n) (x ∷ a) = ap suc (length-zero_words n a)

pub clear-IsSized : {c : ℕ} (s : VregSet) → IsSized c s → IsSized c (clear s)
unfolding clear
clear-IsSized s z = record {
  cap_eq = z.cap_eq;
  width = rw length-zero_words z.width;
  small = z.small;
  bounded = λ i. rw (words_needed-width s z, zero_words-all s.words i) (omega arith);
}

pub has-clear : {c : ℕ} (s : VregSet) (v : ℕ) → IsSized c s → has (clear s) v ≡ false
has-clear s v z =
    has-bit (clear s) v (clear-IsSized s z)
    ∙ unfold clear in
      rw (words_needed-width s z, zero_words-all s.words (v / 64)) (bit-zero (v % 64))
