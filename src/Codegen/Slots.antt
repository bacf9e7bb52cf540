-- ===== src/Codegen/Slots.antt =====
-- Where the slots of a frame are: `slot_fp_offset` against the words that the prologue saves.
use compilador.Prelude.{
  ℕ, zero, suc, ◌+◌, ◌-◌, ◌/◌, ◌%◌, ◌^◌, ◌<◌, ◌≤◌, ◌≡◌, refl, ap, ◌∙◌, [], ◌∷◌, inl, inr, arith,
  Bool-cases, length,
}
use compilador.Prelude.Bits.{bit, mask_test, bit_or-lt, pow-lt}
use compilador.Ir.Instr.{Function}
use compilador.Regalloc.Build.{Regalloc}
use compilador.Codegen.Asm.{word16}
use compilador.Codegen.Registers.{color_of}
use compilador.Codegen.Frame.{
  is_callee_saved, mask_from, callee_used_mask, popcount, function_is_leaf, count_slots,
  header_words, slot_fp_offset,
}
use compilador.Codegen.RoundTrip.{used, saved_words}

mask_from-lt : (n v : ℕ) (ra : Regalloc) (mask : ℕ) → mask < 2 ^ 4 → mask_from n v ra mask < 2 ^ 4
unfolding mask_from
mask_from-lt zero v ra mask lt = lt
mask_from-lt (suc n) v ra mask lt = elim (Bool-cases (is_callee_saved (color_of ra v))) [
  | inl callee ↦ rw callee (
      mask_from-lt n (v + 1) ra _ (
        bit_or-lt 4 mask (2 ^ (color_of ra v - 8)) lt
          (pow-lt (color_of ra v - 8) 4 (ground arith))))
  | inr other ↦ rw other (mask_from-lt n (v + 1) ra mask lt)
]

-- The mask has bits for the four callee-saved registers only.
callee_used_mask-lt : (ra : Regalloc) → callee_used_mask ra < 16
unfolding callee_used_mask
callee_used_mask-lt ra = mask_from-lt ra.n_vregs 0 ra 0 (omega arith)

length-used : (mask : ℕ) → length (used mask (0 ∷ 1 ∷ 2 ∷ 3 ∷ [])) ≡ popcount 4 mask
unfolding bit
length-used mask =
    ground (arith, mask_test mask 0, mask_test mask 1, mask_test mask 2, mask_test mask 3)

popcount-zero : (n : ℕ) → popcount n 0 ≡ 0
popcount-zero zero = refl
popcount-zero (suc n) = omega (arith, popcount-zero n)

popcount-used :
    (ra : Regalloc)
    → popcount 16 (callee_used_mask ra) ≡ length (used (callee_used_mask ra) (0 ∷ 1 ∷ 2 ∷ 3 ∷ []))
popcount-used ra =
    let m = callee_used_mask ra in
    let empty : m / 2 / 2 / 2 / 2 ≡ 0 = omega (arith, callee_used_mask-lt ra) in
    ap (λ t. m % 2 + (m / 2 % 2 + (m / 2 / 2 % 2 + (m / 2 / 2 / 2 % 2 + popcount 12 t)))) empty
    ∙ omega (arith, length-used m, popcount-zero 12)

header-saved : (func : Function) (ra : Regalloc) → suc (header_words func ra) ≡ saved_words func ra
header-saved func ra = elim (Bool-cases (function_is_leaf func)) [
  | inl leaf ↦ rw leaf (omega (arith, popcount-used ra))
  | inr calls ↦ rw calls (omega (arith, popcount-used ra))
]

-- fp plus the offset of slot k is the address k + 1 words below the saved words: so every slot of the
-- function lies below what the prologue saves, at or above the stack pointer, and in a word of its
-- own. `top` is sp at the entry, fp is `top - 1`, and the frame has room on the stack.
pub slot_fp_offset-below :
    (func : Function) (ra : Regalloc) (top slot_id : ℕ)
    → saved_words func ra + count_slots func ≤ top
    → top < 65536
    → slot_id < count_slots func
    → ((top - 1 + word16 (slot_fp_offset slot_id func ra)) % 65536
        ≡ top - saved_words func ra - (slot_id + 1))
      × (top - saved_words func ra - count_slots func
          ≤ (top - 1 + word16 (slot_fp_offset slot_id func ra)) % 65536)
unfolding slot_fp_offset
slot_fp_offset-below func ra top slot_id room small lt =
    (omega (arith, header-saved func ra), omega (arith, header-saved func ra))
