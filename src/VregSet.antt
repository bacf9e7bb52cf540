-- ===== src/VregSet.antt =====
-- The bit sets over virtual registers of CodeGen/RegAlloc/liveness.c (`vreg_set_t`): an array of
-- 64-bit words and the number of bits in it. The arrays are lists of words, and an operation
-- returns the set that it leaves behind. `calloc` is taken to succeed.
pub mod Laws
pub mod Members
pub mod Union
use compilador.Prelude.{
  ℕ, zero, suc, ◌+◌, ◌-◌, ◌*◌, ◌/◌, ◌%◌, ◌^◌, bit_and, bit_or, Bool, true, false, not, ◌||◌, Option,
  none, some, List, [], ◌∷◌, ◌++◌, ltb, leb, ◌==◌, if◌then◌else◌, u32_mod, get_or, set, replicate,
}

pub record VregSet : Type 0 where
  pub words : List ℕ
  pub cap : ℕ

-- `(n_bits + WORD_BITS - 1u) / WORD_BITS`, on `unsigned`
pub words_needed : ℕ → ℕ
words_needed n_bits = (n_bits + 63) % u32_mod / 64

-- `~x` on `uint64_t`
abbrev pub complement : ℕ → ℕ
complement x = 2 ^ 64 - 1 - x

unfoldable pub init : ℕ → VregSet
unfolding words_needed
init n_vregs =
    let nw = words_needed (if n_vregs == 0 then 1 else n_vregs) in
    record { words = replicate nw 0; cap = nw * 64 % u32_mod }

-- `memset` of the first `n` words
zero_words : ℕ → List ℕ → List ℕ
zero_words zero ws = ws
zero_words (suc n) [] = []
zero_words (suc n) (w ∷ ws) = 0 ∷ zero_words n ws

unfoldable pub clear : VregSet → VregSet
unfolding words_needed zero_words
clear s = record s { words = zero_words (words_needed s.cap) s.words }

-- `memcpy` of the first `n` words
copy_words : ℕ → List ℕ → List ℕ → List ℕ
copy_words zero dst src = dst
copy_words (suc n) (d ∷ dst) (s ∷ src) = s ∷ copy_words n dst src
copy_words (suc n) dst src = dst

unfoldable pub copy : VregSet → VregSet → Option VregSet
unfolding words_needed copy_words
copy dst src =
    if dst.cap == src.cap
    then some (record dst { words = copy_words (words_needed dst.cap) dst.words src.words })
    else none

-- A write to the word that holds bit `vr`.
update_word : VregSet → ℕ → (ℕ → ℕ) → VregSet
update_word s vr f = record s { words = set s.words (vr / 64) (f (get_or s.words (vr / 64) 0)) }

unfoldable pub add : VregSet → ℕ → Option VregSet
unfolding update_word
add s vr = if ltb vr s.cap then some (update_word s vr (λ w. bit_or w (2 ^ (vr % 64)))) else none

unfoldable pub remove : VregSet → ℕ → Option VregSet
unfolding update_word
remove s vr =
    if ltb vr s.cap
    then some (update_word s vr (λ w. bit_and w (complement (2 ^ (vr % 64)))))
    else none

unfoldable pub has : VregSet → ℕ → Bool
has s vr =
    if leb s.cap vr then false else bit_and (get_or s.words (vr / 64) 0 / 2 ^ (vr % 64)) 1 == 1

-- The loop of `vreg_set_union_into`: the words of `dst`, and `changed`.
union_words : ℕ → List ℕ → List ℕ → List ℕ × Bool
union_words zero dst src = (dst, false)
union_words (suc n) (d ∷ dst) (s ∷ src) =
    let (rest, changed) = union_words n dst src in
    (bit_or d s ∷ rest, not (bit_or d s == d) || changed)
union_words (suc n) dst src = (dst, false)

unfoldable pub union_into : VregSet → VregSet → VregSet × Bool
unfolding words_needed union_words
union_into dst src =
    let (ws, changed) = union_words (words_needed dst.cap) dst.words src.words in
    (record dst { words = ws }, changed)

minus_words : ℕ → List ℕ → List ℕ → List ℕ
minus_words zero dst src = dst
minus_words (suc n) (d ∷ dst) (s ∷ src) = bit_and d (complement s) ∷ minus_words n dst src
minus_words (suc n) dst src = dst

unfoldable pub minus_into : VregSet → VregSet → VregSet
unfolding words_needed minus_words
minus_into dst src = record dst { words = minus_words (words_needed dst.cap) dst.words src.words }

equal_words : ℕ → List ℕ → List ℕ → Bool
equal_words zero a b = true
equal_words (suc n) (x ∷ a) (y ∷ b) = if not (x == y) then false else equal_words n a b
equal_words (suc n) a b = true

unfoldable pub equal : VregSet → VregSet → Bool
unfolding words_needed equal_words
equal a b = equal_words (words_needed a.cap) a.words b.words

-- `__builtin_ctzll` of a nonzero word: the position of its lowest set bit, in at most `fuel` steps.
unfoldable pub ctz : ℕ → ℕ → ℕ
ctz zero word = 0
ctz (suc fuel) word = if word % 2 == 1 then 0 else suc (ctz fuel (word / 2))

-- The ids that the loop `while (word) { ... word &= word - 1; }` visits in the word whose first
-- bit is `base`; a word of 64 bits takes at most 64 rounds.
unfoldable pub word_members : ℕ → ℕ → ℕ → List ℕ
unfolding ctz
word_members zero base word = []
word_members (suc fuel) base word =
    let rest = word_members fuel base (bit_and word (word - 1)) in
    if word == 0 then [] else (base + ctz 64 word) ∷ rest

members_from : ℕ → ℕ → List ℕ → List ℕ
members_from zero w ws = []
members_from (suc n) w [] = []
members_from (suc n) w (word ∷ ws) = word_members 64 (w * 64) word ++ members_from n (w + 1) ws

-- The ids in the order in which `ifg_build` and `vreg_set_print` visit them.
unfoldable pub members : VregSet → List ℕ
unfolding words_needed members_from
members s = members_from (words_needed s.cap) 0 s.words
