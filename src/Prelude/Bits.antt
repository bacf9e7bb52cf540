-- ===== src/Prelude/Bits.antt =====
-- The bits of a number, and what `|`, `&` and `~` do to them.
use Prim.Native.Nat.{
  ℕ, zero, suc, ◌+◌, ◌-◌, ◌*◌, ◌/◌, ◌%◌, ◌^◌, ◌≤◌, ◌<◌, min, max, bit_and, bit_or, digits,
  bit_and-bitwise, bit_or-bitwise, bit_xor, bit_xor-bitwise, differ,
}
use mathlib.Core.Path.{◌≡◌, refl, sym, ap, ◌∙◌}
use mathlib.Core.Logic.{◌≢◌}
use mathlib.Core.Bool.{Bool, true, false, not, ◌&&◌, ◌||◌}
use native.Mathlib.Omega.{arith}
use native.Mathlib.Nat.{pow-suc, pow-succ', div-div-eq-div-mul}
use compilador.Prelude.Tests.{◌==◌, ==_iff, Bool-cases}
use mathlib.Core.Logic.{inl, inr}
use mathlib.Core.Path.{ap₂}

-- Bit `k` of `x`.
unfoldable pub bit : ℕ → ℕ → Bool
bit x zero = x % 2 == 1
bit x (suc k) = bit (x / 2) k

-- More fuel changes nothing, and the lowest digit splits off, whatever joins the digits.
module _ (end : ℕ → ℕ) (join : ℕ → ℕ → ℕ) where
  digits_enough : (x y k l : ℕ) → x ≤ k → x ≤ l → digits end join k x y ≡ digits end join l x y
  digits_enough zero y zero zero low high = refl
  digits_enough zero y zero (suc l) low high = refl
  digits_enough zero y (suc k) zero low high = refl
  digits_enough zero y (suc k) (suc l) low high = refl
  digits_enough (suc x) y zero l low high = absurd (omega arith)
  digits_enough (suc x) y (suc k) zero low high = absurd (omega arith)
  digits_enough (suc x) y (suc k) (suc l) low high =
      let rest = digits_enough (suc x / 2) (y / 2) k l (omega arith) (omega arith) in
      omega (arith, rest)

  digits-low :
      (x y : ℕ)
      → digits end join (suc x) (suc x) y
        ≡ digits end join (suc x / 2) (suc x / 2) (y / 2) * 2 + join (suc x % 2) (y % 2)
  digits-low x y =
      let half = suc x / 2 in
      let rest = digits_enough half (y / 2) x half (omega arith) (omega arith) in
      omega (arith, rest)

zero-bit_and : (y : ℕ) → bit_and 0 y ≡ 0
zero-bit_and y = bit_and-bitwise 0 y

zero-bit_or : (y : ℕ) → bit_or 0 y ≡ y
zero-bit_or y = bit_or-bitwise 0 y

-- The lowest bit of a bitwise operation.
pub bit_and_step : (x y : ℕ) → bit_and x y ≡ min (x % 2) (y % 2) + 2 * bit_and (x / 2) (y / 2)
bit_and_step zero y = omega (arith, zero-bit_and (y / 2), zero-bit_and y)
bit_and_step (suc x) y =
    let whole = bit_and-bitwise (suc x) y in
    let half = bit_and-bitwise (suc x / 2) (y / 2) in
    omega (arith, whole, half, digits-low (λ t. zero) min x y)

bit_or_step : (x y : ℕ) → bit_or x y ≡ max (x % 2) (y % 2) + 2 * bit_or (x / 2) (y / 2)
bit_or_step zero y = omega (arith, zero-bit_or (y / 2), zero-bit_or y)
bit_or_step (suc x) y =
    let whole = bit_or-bitwise (suc x) y in
    let half = bit_or-bitwise (suc x / 2) (y / 2) in
    omega (arith, whole, half, digits-low (λ t. t) max x y)

-- A bitwise operation acts on each bit.
pub bit-bit_or : (a b k : ℕ) → bit (bit_or a b) k ≡ (bit a k || bit b k)
unfolding bit
bit-bit_or a b zero = ground (arith, bit_or_step a b)
bit-bit_or a b (suc k) =
    let e : bit_or a b / 2 ≡ bit_or (a / 2) (b / 2) = omega (arith, bit_or_step a b) in
    ap (λ t. bit t k) e ∙ bit-bit_or (a / 2) (b / 2) k

pub bit-bit_and : (a b k : ℕ) → bit (bit_and a b) k ≡ (bit a k && bit b k)
unfolding bit
bit-bit_and a b zero = ground (arith, bit_and_step a b)
bit-bit_and a b (suc k) =
    let e : bit_and a b / 2 ≡ bit_and (a / 2) (b / 2) = omega (arith, bit_and_step a b) in
    ap (λ t. bit t k) e ∙ bit-bit_and (a / 2) (b / 2) k

pub bit-zero : (k : ℕ) → bit 0 k ≡ false
unfolding bit
bit-zero zero = refl
bit-zero (suc k) = bit-zero k

pow-pos : (n : ℕ) → 0 < 2 ^ n
pow-pos zero = omega arith
pow-pos (suc n) = omega (arith, pow-pos n, pow-suc 2 n)

pub pow-lt : (k n : ℕ) → k < n → 2 ^ k < 2 ^ n
pow-lt k zero h = absurd (omega arith)
pow-lt zero (suc n) h = omega (arith, pow-pos n, pow-suc 2 n)
pow-lt (suc k) (suc n) h = omega (arith, pow-lt k n (omega arith), pow-suc 2 n, pow-suc 2 k)

pub bit-pow : (j k : ℕ) → bit (2 ^ j) k ≡ (j == k)
unfolding bit
bit-pow zero zero = refl
bit-pow zero (suc k) = bit-zero k ∙ ground arith
bit-pow (suc j) zero = ground (arith, pow-suc 2 j)
bit-pow (suc j) (suc k) =
    let e : 2 ^ suc j / 2 ≡ 2 ^ j = omega (arith, pow-suc 2 j) in
    ap (λ t. bit t k) e ∙ bit-pow j k ∙ ground arith

-- `~x` over `n` bits.
pub bit-complement : (n x k : ℕ) → x < 2 ^ n → k < n → bit (2 ^ n - 1 - x) k ≡ not (bit x k)
unfolding bit
bit-complement zero x k h lt = absurd (omega arith)
bit-complement (suc n) x zero h lt = ground (arith, pow-suc 2 n)
bit-complement (suc n) x (suc k) h lt =
    let e : (2 ^ suc n - 1 - x) / 2 ≡ 2 ^ n - 1 - x / 2 = omega (arith, pow-suc 2 n) in
    ap (λ t. bit t k) e ∙ bit-complement n (x / 2) k (omega (arith, pow-suc 2 n)) (omega arith)

pub bit-out : (n x k : ℕ) → x < 2 ^ n → n ≤ k → bit x k ≡ false
unfolding bit
bit-out zero x k h le = ap (λ t. bit t k) (omega arith) ∙ bit-zero k
bit-out (suc n) x zero h le = absurd (omega arith)
bit-out (suc n) x (suc k) h le = bit-out n (x / 2) k (omega (arith, pow-suc 2 n)) (omega arith)

pub bit_or-lt : (n a b : ℕ) → a < 2 ^ n → b < 2 ^ n → bit_or a b < 2 ^ n
bit_or-lt zero a b p q =
    let e : a ≡ 0 = omega arith in omega (arith, ap (λ t. bit_or t b) e, zero-bit_or b)
bit_or-lt (suc n) a b p q =
    let r = bit_or-lt n (a / 2) (b / 2) (omega (arith, pow-suc 2 n)) (omega (arith, pow-suc 2 n)) in
    omega (arith, bit_or_step a b, pow-suc 2 n)

pub bit_and-le : (n a b : ℕ) → a ≤ n → bit_and a b ≤ a
bit_and-le zero a b h =
    let e : a ≡ 0 = omega arith in omega (arith, ap (λ t. bit_and t b) e, zero-bit_and b)
bit_and-le (suc n) zero b h = omega (arith, zero-bit_and b)
bit_and-le (suc n) (suc a) b h =
    omega (arith, bit_and_step (suc a) b, bit_and-le n (suc a / 2) (b / 2) (omega arith))

-- Two words with the same bits are equal.
pub eq_of_bits : (n a b : ℕ) → a < 2 ^ n → b < 2 ^ n → ((k : ℕ) → k < n → bit a k ≡ bit b k) → a ≡ b
unfolding bit
eq_of_bits zero a b p q same = omega arith
eq_of_bits (suc n) a b p q same =
    let halves =
      eq_of_bits n (a / 2) (b / 2) (omega (arith, pow-suc 2 n)) (omega (arith, pow-suc 2 n))
        (λ k lt. same (suc k) (omega arith)) in
    ground (arith, same 0 (omega arith))

bit_and-zero : (n a : ℕ) → a ≤ n → bit_and a 0 ≡ 0
bit_and-zero zero a h =
    let e : a ≡ 0 = omega arith in omega (arith, ap (λ t. bit_and t 0) e, zero-bit_and 0)
bit_and-zero (suc n) zero h = refl
bit_and-zero (suc n) (suc a) h =
    omega (arith, bit_and_step (suc a) 0, bit_and-zero n (suc a / 2) (omega arith))

zero_of_bits_below : (n x : ℕ) → x ≤ n → ((k : ℕ) → bit x k ≡ false) → x ≡ 0
unfolding bit
zero_of_bits_below zero x h clear = omega arith
zero_of_bits_below (suc n) x h clear =
    let odd = clear 0 in
    let half : x ≢ 0 → x / 2 ≡ 0 =
      λ pos. zero_of_bits_below n (x / 2) (omega arith) (λ k. clear (suc k)) in
    ground arith

-- A number with no set bit is 0.
pub zero_of_bits : (x : ℕ) → ((k : ℕ) → bit x k ≡ false) → x ≡ 0
zero_of_bits x clear = zero_of_bits_below x x (omega arith) clear

-- The word and the place in it name a bit of an array.
pub eq-halves : (v w : ℕ) → (v == w) ≡ ((v / 64 == w / 64) && (v % 64 == w % 64))
eq-halves v w = ground arith

-- `(x >> k) & 1`
pub bit_shift : (x k : ℕ) → (bit_and (x / 2 ^ k) 1 == 1) ≡ bit x k
unfolding bit
bit_shift x zero = ground (arith, bit_and_step (x / 1) 1, bit_and-zero (x / 1 / 2) (x / 1 / 2))
bit_shift x (suc k) =
    let e : x / 2 ^ suc k ≡ x / 2 / 2 ^ k =
      ap (λ t. x / t) (pow-succ' 2 k) ∙ sym (div-div-eq-div-mul x 2 (2 ^ k)) in
    ap (λ t. bit_and t 1 == 1) e ∙ bit_shift (x / 2) k

-- `w & mask` is 0 exactly when the bit is clear.
pub mask_test : (w k : ℕ) → (bit_and w (2 ^ k) == 0) ≡ not (bit w k)
mask_test w k = elim (Bool-cases (bit w k)) [
  | inl set_bit ↦ elim (Bool-cases (bit_and w (2 ^ k) == 0)) [
    | inr nonzero ↦ rw (set_bit, nonzero)
    | inl zero_word ↦ cc (
      ap (λ t. bit t k) ((==_iff (bit_and w (2 ^ k)) 0).0 zero_word),
      bit-zero k,
      bit-bit_and w (2 ^ k) k ∙ ap₂ ◌&&◌ set_bit (bit-pow k k ∙ (==_iff k k).1 refl),
    )
  ]
  | inr clear ↦
      rw
        (zero_of_bits (bit_and w (2 ^ k))
          (λ j. bit-bit_and w (2 ^ k) j ∙ ground (arith, bit-pow k j, bit_at w k j)))
        (ground arith)
]
  where
    bit_at : (w k j : ℕ) → (k == j) ≡ true → bit w j ≡ bit w k
    bit_at w k j e = ap (bit w) (ground arith)

zero-bit_xor : (y : ℕ) → bit_xor 0 y ≡ y
zero-bit_xor y = bit_xor-bitwise 0 y

bit_xor_step : (x y : ℕ) → bit_xor x y ≡ differ (x % 2) (y % 2) + 2 * bit_xor (x / 2) (y / 2)
bit_xor_step zero y = omega (arith, zero-bit_xor (y / 2), zero-bit_xor y)
bit_xor_step (suc x) y =
    let whole = bit_xor-bitwise (suc x) y in
    let half = bit_xor-bitwise (suc x / 2) (y / 2) in
    omega (arith, whole, half, digits-low (λ t. t) differ x y)

differ_bits : (x y : ℕ) → x < 2 → y < 2 → differ x y ≡ max x y - min x y
differ_bits zero zero p q = refl
differ_bits zero (suc zero) p q = refl
differ_bits (suc zero) zero p q = refl
differ_bits (suc zero) (suc zero) p q = refl
differ_bits (suc (suc x)) y p q = absurd (omega arith)
differ_bits x (suc (suc y)) p q = absurd (omega arith)

-- Exclusive or adds the digits that only one number has.
pub bit_xor_lem : (n x y : ℕ) → x ≤ n → bit_xor x y + bit_and x y ≡ bit_or x y
bit_xor_lem zero x y h =
    let e : x ≡ 0 = omega arith in
    rw e (omega (arith, zero-bit_xor y, zero-bit_and y, zero-bit_or y))
bit_xor_lem (suc n) zero y h = omega (arith, zero-bit_xor y, zero-bit_and y, zero-bit_or y)
bit_xor_lem (suc n) (suc x) y h = omega (
  arith,
  bit_xor_step (suc x) y,
  bit_and_step (suc x) y,
  bit_or_step (suc x) y,
  differ_bits (suc x % 2) (y % 2) (omega arith) (omega arith),
  bit_xor_lem n (suc x / 2) (y / 2) (omega arith),
)

digit_apart : (x y : ℕ) → x < 2 → y < 2 → min (max x y - min x y) (min x y) ≡ 0
digit_apart zero y p q = omega arith
digit_apart (suc zero) zero p q = refl
digit_apart (suc zero) (suc zero) p q = refl
digit_apart (suc (suc x)) y p q = absurd (omega arith)
digit_apart x (suc (suc y)) p q = absurd (omega arith)

xor_apart : (n x y : ℕ) → x ≤ n → bit_and (bit_xor x y) (bit_and x y) ≡ 0
xor_apart zero x y h =
    let e : bit_and x y ≡ 0 = omega (arith, bit_and-le 0 x y h) in
    rw e (bit_and-zero (bit_xor x y) (bit_xor x y) (omega arith))
xor_apart (suc n) x y h =
    let low = bit_and_step (bit_xor x y) (bit_and x y) in
    let ex : bit_xor x y / 2 ≡ bit_xor (x / 2) (y / 2) =
      omega (arith, bit_xor_step x y, differ_bits (x % 2) (y % 2) (omega arith) (omega arith)) in
    let ea : bit_and x y / 2 ≡ bit_and (x / 2) (y / 2) = omega (arith, bit_and_step x y) in
    let dx : bit_xor x y % 2 ≡ max (x % 2) (y % 2) - min (x % 2) (y % 2) =
      omega (arith, bit_xor_step x y, differ_bits (x % 2) (y % 2) (omega arith) (omega arith)) in
    let da : bit_and x y % 2 ≡ min (x % 2) (y % 2) = omega (arith, bit_and_step x y) in
    let rest = xor_apart n (x / 2) (y / 2) (omega arith) in
    omega (
      arith,
      low,
      dx,
      da,
      ap₂ bit_and ex ea,
      rest,
      digit_apart (x % 2) (y % 2) (omega arith) (omega arith),
    )

min-max : (a b : ℕ) → min a b + max a b ≡ a + b
min-max a b = omega arith

and_plus_or : (n x y : ℕ) → x ≤ n → bit_and x y + bit_or x y ≡ x + y
and_plus_or zero x y h =
    let e : x ≡ 0 = omega arith in rw e (omega (arith, zero-bit_and y, zero-bit_or y))
and_plus_or (suc n) zero y h = omega (arith, zero-bit_and y, zero-bit_or y)
and_plus_or (suc n) (suc x) y h = omega (
  arith,
  bit_and_step (suc x) y,
  bit_or_step (suc x) y,
  min-max (suc x % 2) (y % 2),
  and_plus_or n (suc x / 2) (y / 2) (omega arith),
)

-- `(x ^ y) ^ (x & y)` is `x | y`.
pub xor_and_or : (x y : ℕ) → bit_xor (bit_xor x y) (bit_and x y) ≡ bit_or x y
xor_and_or x y = omega (
  arith,
  bit_xor_lem (bit_xor x y) (bit_xor x y) (bit_and x y) (omega arith),
  xor_apart x x y (omega arith),
  bit_xor_lem x x y (omega arith),
  and_plus_or (bit_xor x y) (bit_xor x y) (bit_and x y) (omega arith),
)

min_comm : (a b : ℕ) → min a b ≡ min b a
min_comm a b = omega arith

max_comm : (a b : ℕ) → max a b ≡ max b a
max_comm a b = omega arith

pub bit_and_comm : (n a b : ℕ) → a ≤ n → bit_and a b ≡ bit_and b a
bit_and_comm zero a b h =
    let e : a ≡ 0 = omega arith in rw e (zero-bit_and b ∙ sym (bit_and-zero b b (omega arith)))
bit_and_comm (suc n) zero b h = zero-bit_and b ∙ sym (bit_and-zero b b (omega arith))
bit_and_comm (suc n) (suc a) b h = omega (
  arith,
  bit_and_step (suc a) b,
  bit_and_step b (suc a),
  min_comm (suc a % 2) (b % 2),
  bit_and_comm n (suc a / 2) (b / 2) (omega arith),
)

pub bit_or_comm : (a b : ℕ) → bit_or a b ≡ bit_or b a
bit_or_comm a b = omega (
  arith,
  and_plus_or a a b (omega arith),
  and_plus_or b b a (omega arith),
  bit_and_comm a a b (omega arith),
)

pub bit_xor_comm : (a b : ℕ) → bit_xor a b ≡ bit_xor b a
bit_xor_comm a b = omega (
  arith,
  bit_xor_lem a a b (omega arith),
  bit_xor_lem b b a (omega arith),
  bit_and_comm a a b (omega arith),
  bit_or_comm a b,
)

max_idem : (a : ℕ) → max a a ≡ a
max_idem a = omega arith

pub bit_or_idem : (n a : ℕ) → a ≤ n → bit_or a a ≡ a
bit_or_idem zero a h = let e : a ≡ 0 = omega arith in rw e (zero-bit_or 0)
bit_or_idem (suc n) zero h = zero-bit_or 0
bit_or_idem (suc n) (suc a) h = omega (
  arith,
  bit_or_step (suc a) (suc a),
  max_idem (suc a % 2),
  bit_or_idem n (suc a / 2) (omega arith),
)
