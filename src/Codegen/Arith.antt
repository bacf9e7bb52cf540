-- ===== src/Codegen/Arith.antt =====
-- What the emitted arithmetic computes, on the machine.
use compilador.Prelude.{
  ℕ, ◌+◌, ◌-◌, ◌%◌, ◌<◌, ◌≡◌, refl, ap, ◌∙◌, Bool, true, false, [], ◌∷◌, ◌==◌, inl, inr, arith,
  Bool-cases, ==_iff,
}
use compilador.Prelude.Bits.{bit_and_comm, bit_xor_comm}
use mathlib.Core.Path.{ap₂}
use compilador.Codegen.Asm.{Asm, AluOp, expand, t3}
use compilador.Codegen.Machine.{read_reg, write, widen, compute, step, exec}
use compilador.Codegen.Emit.{emit_binop_rr, emit_binop_rr_nc, is_sub}
use compilador.Codegen.Puts.{Puts, AreWords, put_one, weaken, wrote}

abbrev pub commutes : AluOp → Bool
commutes AluOp.add = true
commutes AluOp.sub = false
commutes AluOp.and = true
commutes AluOp.xor = true
commutes AluOp.srl = false
commutes AluOp.sra = false

compute_comm : (op : AluOp) (x y : ℕ) → commutes op ≡ true → compute op x y ≡ compute op y x
unfolding compute
compute_comm AluOp.add x y h = omega arith
compute_comm AluOp.sub x y h = cc
compute_comm AluOp.and x y h = bit_and_comm x x y (omega arith)
compute_comm AluOp.xor x y h = bit_xor_comm x y
compute_comm AluOp.srl x y h = cc
compute_comm AluOp.sra x y h = cc

module _ (regs mem : ℕ → ℕ) (flags : ℕ × ℕ) (words : AreWords regs) where
  pub read_small : (r : ℕ) → read_reg regs r < 65536
  read_small r = ground (arith, words r)

  pub moved_value : (a : ℕ) → (read_reg regs a + widen 0) % 65536 ≡ read_reg regs a
  moved_value a = ground (arith, read_small a)

  -- The code after `MOV(dst, a)`.
  moved_op :
      (op : AluOp) (dst a b : ℕ)
      → 0 < dst
      → (dst == b) ≡ false
      → Puts
          (Asm.mov dst a ∷ Asm.alu op dst b ∷ [])
          []
          dst
          (compute op (read_reg regs a) (read_reg regs b))
          regs
          mem
          flags
  unfolding exec expand step
  moved_op op dst a b h apart =
      let moved = write regs dst ((read_reg regs a + widen 0) % 65536) in
      record {
        after = write moved dst (compute op (read_reg moved dst) (read_reg moved b));
        runs = refl;
        result =
            ground (arith, read_small a, ap (λ t. compute op t (read_reg regs b)) (moved_value a));
        others = λ k other free. ground arith;
      }

  -- The two-address code of a commutative operation puts the result into `dst`, whichever of the
  -- operands `dst` is, and changes no other register and no memory. The registers hold words and
  -- `dst` is not r0.
  pub emit_binop_rr-Puts :
      (op : AluOp) (dst a b : ℕ)
      → commutes op ≡ true
      → 0 < dst
      → Puts
          (emit_binop_rr op dst a b)
          []
          dst
          (compute op (read_reg regs a) (read_reg regs b))
          regs
          mem
          flags
  unfolding emit_binop_rr exec expand step
  emit_binop_rr-Puts op dst a b law h = elim (Bool-cases (dst == a)) [
    | inl first ↦ rw first (
        put_one regs mem flags _ [] dst _ h (
          wrote regs mem flags dst
            (ap (λ t. compute op (read_reg regs t) (read_reg regs b)) ((==_iff dst a).0 first))))
    | inr no_first ↦ elim (Bool-cases (dst == b)) [
      | inl second ↦
          rw (no_first, second)
            (put_one regs mem flags _ [] dst _ h (
              wrote regs mem flags dst (
                ap (λ t. compute op (read_reg regs t) (read_reg regs a)) ((==_iff dst b).0 second)
                ∙ compute_comm op _ _ law)))
      | inr apart ↦ rw (no_first, apart) (moved_op op dst a b h apart)
    ]
  ]

  pub same_reg : (a b k : ℕ) → (a == b) ≡ true → (k == b) ≡ (k == a)
  same_reg a b k e = ground arith

  -- `NEG(dst); ADD dst, a` for a difference whose second operand is in `dst`.
  negated :
      (op : AluOp) (dst a b : ℕ)
      → 0 < dst
      → (dst == a) ≡ false
      → (dst == b) ≡ true
      → is_sub op ≡ true
      → Puts
          (Asm.neg dst ∷ Asm.alu AluOp.add dst a ∷ [])
          (t3 ∷ [])
          dst
          (compute op (read_reg regs a) (read_reg regs b))
          regs
          mem
          flags
  unfolding exec expand step compute
  negated AluOp.sub dst a b h apart second minus =
      let moved = write regs dst ((widen 0 + (65536 - read_reg regs dst)) % 65536) in
      let e : dst ≡ b = (==_iff dst b).0 second in
      record {
        after = write moved dst ((read_reg moved dst + read_reg moved a) % 65536);
        runs = refl;
        result = ground (arith, read_small a, read_small dst, ap (read_reg regs) e);
        others = λ k other free. ground arith;
      }
  negated AluOp.add dst a b h apart second minus = cc
  negated AluOp.and dst a b h apart second minus = cc
  negated AluOp.xor dst a b h apart second minus = cc
  negated AluOp.srl dst a b h apart second minus = cc
  negated AluOp.sra dst a b h apart second minus = cc

  -- The second operand is in `dst` and goes to t3.
  stashed :
      (op : AluOp) (dst a b : ℕ)
      → 0 < dst
      → (dst == t3) ≡ false
      → (a == t3) ≡ false
      → (dst == b) ≡ true
      → Puts
          (Asm.mov t3 b ∷ Asm.mov dst a ∷ Asm.alu op dst t3 ∷ [])
          (t3 ∷ [])
          dst
          (compute op (read_reg regs a) (read_reg regs b))
          regs
          mem
          flags
  unfolding exec expand step
  stashed op dst a b h safe_dst safe_a second =
      let kept = write regs t3 ((read_reg regs b + widen 0) % 65536) in
      let moved = write kept dst ((read_reg kept a + widen 0) % 65536) in
      let left : read_reg moved dst ≡ read_reg regs a = ground (arith, read_small a) in
      let right : read_reg moved t3 ≡ read_reg regs b = ground (arith, read_small b) in
      record {
        after = write moved dst (compute op (read_reg moved dst) (read_reg moved t3));
        runs = refl;
        result = ground arith ∙ ap₂ (compute op) left right;
        others = λ k other free. ground arith;
      }

  -- The two-address code of any operation, as `emit_binop_rr_nc` prints it, puts the result into
  -- `dst`, whichever of the operands `dst` is, and may overwrite t3 but no other register and no
  -- memory. The registers hold words, `dst` is neither r0 nor t3, and the first operand is not t3.
  pub emit_binop_rr_nc-Puts :
      (op : AluOp) (dst a b : ℕ)
      → 0 < dst
      → (dst == t3) ≡ false
      → (a == t3) ≡ false
      → Puts
          (emit_binop_rr_nc op dst a b)
          (t3 ∷ [])
          dst
          (compute op (read_reg regs a) (read_reg regs b))
          regs
          mem
          flags
  unfolding emit_binop_rr_nc exec expand step
  emit_binop_rr_nc-Puts op dst a b h safe_dst safe_a = elim (Bool-cases (dst == a)) [
    | inl first ↦ rw first (
        put_one regs mem flags _ _ dst _ h (
          wrote regs mem flags dst
            (ap (λ t. compute op (read_reg regs t) (read_reg regs b)) ((==_iff dst a).0 first))))
    | inr no_first ↦ elim (Bool-cases (dst == b)) [
      | inl second ↦ elim (Bool-cases (is_sub op)) [
        | inl difference ↦
            rw (no_first, second, difference) (negated op dst a b h no_first second difference)
        | inr shift ↦ rw (no_first, second, shift) (stashed op dst a b h safe_dst safe_a second)
      ]
      | inr apart ↦ rw (no_first, apart) (weaken regs mem flags (moved_op op dst a b h apart))
    ]
  ]
