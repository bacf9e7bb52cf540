-- ===== src/VregSet/Laws.antt =====
-- Single bits of a set: `init`, `add`, `remove` and `copy` against membership.
use compilador.Prelude.{
  ℕ, zero, suc, ◌+◌, ◌*◌, ◌/◌, ◌%◌, ◌^◌, ◌≤◌, ◌<◌, bit_and, bit_or, ◌≡◌, refl, ◌∙◌, ap, sym, false,
  not, ◌&&◌, ◌||◌, some, List, [], ◌∷◌, arith, leb, ◌==◌, if◌then◌else◌, u32_mod, Bool-cases,
  lt→ltb, inl, inr, get_or, length, length-set, length-replicate, get_or-replicate, get_or-set,
  Returns,
}
use compilador.Prelude.Bits.{
  bit, bit-bit_or, bit-bit_and, bit-zero, bit-pow, bit-complement, bit_or-lt, bit_and-le, bit_shift,
  pow-lt, eq-halves,
}
use compilador.VregSet.{
  VregSet, words_needed, init, update_word, copy_words, add, remove, copy, has, complement,
}

-- A set of `cap` bits: whole words, none wider than 64 bits.
pub record IsSized (cap : ℕ) (s : VregSet) : Type 0 where
  pub cap_eq : s.cap ≡ cap
  pub width : cap ≡ 64 * length s.words
  pub small : cap + 64 ≤ u32_mod
  pub bounded : (i : ℕ) → get_or s.words i 0 < 2 ^ 64

pub words_needed-cap : (n : ℕ) → 64 * n + 64 ≤ u32_mod → words_needed (64 * n) ≡ n
unfolding words_needed
words_needed-cap n h = omega arith

pub get_or-out : (xs : List ℕ) (i : ℕ) → length xs ≤ i → get_or xs i 0 ≡ 0
get_or-out [] i h = refl
get_or-out (x ∷ xs) zero h = absurd (omega arith)
get_or-out (x ∷ xs) (suc i) h = get_or-out xs i (omega arith)

-- Membership is a bit of a word, also past the end.
pub has-bit :
    {c : ℕ} (s : VregSet) (v : ℕ) → IsSized c s → has s v ≡ bit (get_or s.words (v / 64) 0) (v % 64)
unfolding has
has-bit s v z = elim (Bool-cases (leb s.cap v)) [
  | inl out ↦ rw out (
      sym (
        ap (λ t. bit t (v % 64)) (get_or-out s.words (v / 64) (ground (arith, z.cap_eq, z.width)))
        ∙ bit-zero (v % 64)))
  | inr inside ↦ rw inside (bit_shift (get_or s.words (v / 64) 0) (v % 64))
]

pub has-out : {c : ℕ} (s : VregSet) (v : ℕ) → IsSized c s → c ≤ v → has s v ≡ false
unfolding has
has-out s v z h = ground arith

-- A fresh set is empty.
pub has-init : (n v : ℕ) → has (init n) v ≡ false
unfolding has init
has-init n v = rw get_or-replicate (ground (arith, bit_shift 0 (v % 64), bit-zero (v % 64)))

pub init-IsSized : (n : ℕ) → n + 128 ≤ u32_mod → (c : ℕ) × (n ≤ c) × IsSized c (init n)
unfolding init words_needed
init-IsSized n h =
    let nw = words_needed (if n == 0 then 1 else n) in
    (
      64 * nw,
      ground arith,
      record {
        cap_eq = ground arith;
        width = rw length-replicate;
        small = ground arith;
        bounded = λ i. rw get_or-replicate (omega arith);
      },
    )

-- A write to one word.
module _ {c : ℕ} (s : VregSet) (v : ℕ) (f : ℕ → ℕ) (z : IsSized c s) (lt : v < c) where
  in_range : v / 64 < length s.words
  in_range = omega (arith, z.width)

  update_word-IsSized : f (get_or s.words (v / 64) 0) < 2 ^ 64 → IsSized c (update_word s v f)
  unfolding update_word
  update_word-IsSized b = record {
    cap_eq = z.cap_eq;
    width = rw length-set z.width;
    small = z.small;
    bounded = λ i.
        rw (get_or-set s.words (v / 64) i (f (get_or s.words (v / 64) 0)) 0 in_range)
          (ground (arith, z.bounded i));
  }

  has-update_word :
      f (get_or s.words (v / 64) 0) < 2 ^ 64
      → (w : ℕ)
      → has (update_word s v f) w
        ≡ (if v / 64 == w / 64 then bit (f (get_or s.words (v / 64) 0)) (w % 64) else has s w)
  has-update_word b w =
      has-bit (update_word s v f) w (update_word-IsSized b)
      ∙ unfold update_word in
        rw
          (
            get_or-set s.words (v / 64) (w / 64) (f (get_or s.words (v / 64) 0)) 0 in_range,
            has-bit s w z,
          )
          (ground arith)

-- `add` inserts its id and changes nothing else; it ends normally for an id below the capacity.
pub add-Returns :
    {c : ℕ} (s : VregSet) (v : ℕ)
    → IsSized c s
    → v < c
    → Returns (add s v) λ t. IsSized c t × ((w : ℕ) → has t w ≡ (v == w || has s w))
unfolding add
add-Returns s v z lt =
    let old = get_or s.words (v / 64) 0 in
    let f = λ (w : ℕ). bit_or w (2 ^ (v % 64)) in
    let b : f old < 2 ^ 64 =
      bit_or-lt 64 old (2 ^ (v % 64)) (z.bounded (v / 64)) (pow-lt (v % 64) 64 (omega arith)) in
    (
      update_word s v f,
      rw (z.cap_eq, lt→ltb v _ lt),
      (
        update_word-IsSized s v f z lt b,
        λ w.
            has-update_word s v f z lt b w
            ∙ ground (
              arith,
              has-bit s w z,
              bit-bit_or old (2 ^ (v % 64)) (w % 64),
              bit-pow (v % 64) (w % 64),
              eq-halves v w,
            ),
      ),
    )

-- `remove` takes its id out and changes nothing else; it ends normally for an id below the capacity.
pub remove-Returns :
    {c : ℕ} (s : VregSet) (v : ℕ)
    → IsSized c s
    → v < c
    → Returns (remove s v) λ t. IsSized c t × ((w : ℕ) → has t w ≡ (has s w && not (v == w)))
unfolding remove
remove-Returns s v z lt =
    let old = get_or s.words (v / 64) 0 in
    let f = λ (w : ℕ). bit_and w (complement (2 ^ (v % 64))) in
    let b : f old < 2 ^ 64 =
      omega
        (arith, bit_and-le old old (complement (2 ^ (v % 64))) (omega arith), z.bounded (v / 64)) in
    (
      update_word s v f,
      rw (z.cap_eq, lt→ltb v _ lt),
      (
        update_word-IsSized s v f z lt b,
        λ w.
            has-update_word s v f z lt b w
            ∙ ground (
              arith,
              has-bit s w z,
              bit-bit_and old (complement (2 ^ (v % 64))) (w % 64),
              bit-complement 64 (2 ^ (v % 64)) (w % 64) (pow-lt (v % 64) 64 (omega arith))
                  (omega arith),
              bit-pow (v % 64) (w % 64),
              eq-halves v w,
            ),
      ),
    )

copy_words-all : (a b : List ℕ) → length a ≡ length b → copy_words (length a) a b ≡ b
unfolding copy_words
copy_words-all [] [] h = refl
copy_words-all [] (y ∷ b) h = absurd (omega arith)
copy_words-all (x ∷ a) [] h = absurd (omega arith)
copy_words-all (x ∷ a) (y ∷ b) h = ap (λ t. y ∷ t) (copy_words-all a b (omega arith))

-- Between sets of one capacity `copy` leaves the source.
pub copy-eq : {c : ℕ} (d s : VregSet) → IsSized c d → IsSized c s → copy d s ≡ some s
unfolding copy
copy-eq d s zd zs =
    let n : words_needed d.cap ≡ length d.words =
      rw (zd.cap_eq, zd.width)
        (words_needed-cap (length d.words) (omega (arith, zd.width, zd.small))) in
    let same : d.cap ≡ s.cap = zd.cap_eq ∙ sym zs.cap_eq in
    let ws : copy_words (words_needed d.cap) d.words s.words ≡ s.words =
      rw n (copy_words-all d.words s.words (omega (arith, zd.width, zs.width))) in
    ground arith
