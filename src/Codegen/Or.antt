-- ===== src/Codegen/Or.antt =====
-- What `emit_or_rr` computes, on the machine: the three uses of the identity
-- `x | y = (x ^ y) ^ (x & y)`, and the operands for which it fails.
use Prim.Native.Nat.{bit_xor}
use mathlib.Core.Path.{ap₂}
use compilador.Prelude.{
  ℕ, ◌+◌, ◌%◌, ◌<◌, ◌≡◌, refl, ap, sym, ◌∙◌, bit_and, bit_or, true, false, not, ◌&&◌, ◌||◌, List,
  [], ◌∷◌, ◌++◌, ◌==◌, inl, inr, arith, elem, Bool-cases, ==_iff,
}
use compilador.Prelude.Bits.{xor_and_or, bit_or_comm, bit_or_idem}
use compilador.Codegen.Asm.{Asm, expand, t0, t3}
use compilador.Codegen.Machine.{Machine, ready, read_reg, write, widen, compute, step, exec}
use compilador.Codegen.Emit.{move_unless_same, or_by_hand, emit_or_sides, emit_or_rr}
use compilador.Codegen.Puts.{Puts, Puts-eq, AreWords}
use compilador.Codegen.Arith.{moved_value}

pub exec-append : (xs ys : List Asm) (m : Machine) → exec (xs ++ ys) m ≡ exec ys (exec xs m)
unfolding exec
exec-append [] ys m = refl
exec-append (x ∷ xs) ys m = exec-append xs ys _

module _ (regs mem : ℕ → ℕ) (flags : ℕ × ℕ) (words : AreWords regs) where
  by_hand :
      (dst rhs scratch : ℕ)
      → 0 < dst
      → 0 < scratch
      → (dst == scratch) ≡ false
      → (rhs == scratch) ≡ false
      → Puts
          (or_by_hand dst rhs scratch)
          (scratch ∷ [])
          dst
          (bit_or (read_reg regs dst) (read_reg regs rhs))
          regs
          mem
          flags
  unfolding exec expand step compute
  by_hand dst rhs scratch h hs apart apart_rhs =
      let x = read_reg regs dst in
      let y = read_reg regs rhs in
      let r₁ = write regs scratch ((x + widen 0) % 65536) in
      let r₂ = write r₁ scratch (bit_and (read_reg r₁ scratch) (read_reg r₁ rhs)) in
      let r₃ = write r₂ dst (bit_xor (read_reg r₂ dst) (read_reg r₂ rhs)) in
      let copied : read_reg r₁ scratch ≡ x = ground (arith, moved_value regs mem flags words dst) in
      let both : read_reg r₃ scratch ≡ bit_and x y =
        let e : read_reg r₃ scratch ≡ bit_and (read_reg r₁ scratch) (read_reg r₁ rhs) =
          ground arith in
        let right : read_reg r₁ rhs ≡ y = ground arith in e ∙ ap₂ bit_and copied right in
      let either : read_reg r₃ dst ≡ bit_xor x y =
        let e : read_reg r₃ dst ≡ bit_xor (read_reg r₂ dst) (read_reg r₂ rhs) = ground arith in
        let left : read_reg r₂ dst ≡ x = ground arith in
        let right : read_reg r₂ rhs ≡ y = ground arith in e ∙ ap₂ bit_xor left right in
      let r₄ = write r₃ dst (bit_xor (read_reg r₃ dst) (read_reg r₃ scratch)) in
      let last : read_reg r₄ dst ≡ bit_xor (read_reg r₃ dst) (read_reg r₃ scratch) = ground arith in
      record {
        after = write r₃ dst (bit_xor (read_reg r₃ dst) (read_reg r₃ scratch));
        runs = refl;
        result = last ∙ ap₂ bit_xor either both ∙ xor_and_or x y;
        others = λ k other free. ground arith;
      }

  -- After the move, `dst` holds `lhs`.
  moved_first :
      (code : List Asm) (clobbered : List ℕ) (dst lhs v : ℕ)
      → 0 < dst
      → Puts code clobbered dst v (write regs dst (read_reg regs lhs)) mem flags
      → Puts (Asm.mov dst lhs ∷ code) clobbered dst v regs mem flags
  unfolding exec expand step
  moved_first code clobbered dst lhs v h p = record {
    after = p.after;
    runs =
        ap (λ t. exec code (ready (write regs dst t) mem flags))
          (moved_value regs mem flags words lhs)
        ∙ p.runs;
    result = p.result;
    others = λ k other free. p.others k other free ∙ ground arith;
  }

macro_runs :
    (dst rhs : ℕ) (m : Machine)
    → exec (Asm.or_macro dst rhs ∷ []) m ≡ exec (or_by_hand dst rhs t0) m
unfolding exec expand step
macro_runs dst rhs m = refl

-- If `dst` is not t0, then at most one operand is in t0, and then the other is not in `dst`.
abbrev pub IsOrSafe : ℕ → ℕ → ℕ → Type 0
IsOrSafe dst a b =
    (dst == t0 || (not (a == t0) || not (b == dst || b == t0)) && (not (b == t0) || not (a == dst)))
    ≡ true

module _ (regs mem : ℕ → ℕ) (flags : ℕ × ℕ) (words : AreWords regs) where
  write-AreWords : (dst lhs : ℕ) → AreWords (write regs dst (read_reg regs lhs))
  write-AreWords dst lhs k = ground (arith, words k, words lhs)

  -- `MOV(dst, lhs)` where it is needed, then the or with `rhs` by way of `scratch`.
  sides :
      (dst lhs rhs scratch : ℕ)
      → 0 < dst
      → 0 < scratch
      → (dst == scratch) ≡ false
      → (rhs == scratch) ≡ false
      → (dst == lhs || not (dst == rhs)) ≡ true
      → Puts
          (move_unless_same dst lhs ++ or_by_hand dst rhs scratch)
          (scratch ∷ [])
          dst
          (bit_or (read_reg regs lhs) (read_reg regs rhs))
          regs
          mem
          flags
  sides dst lhs rhs scratch h hs apart apart_rhs first = elim (Bool-cases (dst == lhs)) [
    | inl same ↦
        let e : dst ≡ lhs = (==_iff dst lhs).0 same in
        rw same (
          Puts-eq regs mem flags (ap (λ t. bit_or (read_reg regs t) (read_reg regs rhs)) e)
            (by_hand regs mem flags words dst rhs scratch h hs apart apart_rhs))
    | inr differs ↦
        let moved = write regs dst (read_reg regs lhs) in
        let left : read_reg moved dst ≡ read_reg regs lhs = ground arith in
        let right : read_reg moved rhs ≡ read_reg regs rhs = ground arith in
        rw differs (
          Puts-eq regs mem flags (ap₂ bit_or left right) (
            moved_first regs mem flags words _ _ dst lhs _ h (
              by_hand moved mem flags (write-AreWords dst lhs) dst rhs scratch h hs apart
                apart_rhs)))
  ]

  -- The macro does the same by way of t0.
  macro_sides :
      (lines : List Asm) (dst rhs v : ℕ)
      → Puts (lines ++ or_by_hand dst rhs t0) (t0 ∷ []) dst v regs mem flags
      → Puts (lines ++ Asm.or_macro dst rhs ∷ []) (t0 ∷ []) dst v regs mem flags
  macro_sides lines dst rhs v p = record {
    after = p.after;
    runs = exec-append lines _ _ ∙ macro_runs dst rhs _ ∙ sym (exec-append lines _ _) ∙ p.runs;
    result = p.result;
    others = p.others;
  }

  widen_clobbered :
      {code : List Asm} {clobbered more : List ℕ} {dst v : ℕ}
      → ((k : ℕ) → elem k more ≡ false → elem k clobbered ≡ false)
      → Puts code clobbered dst v regs mem flags
      → Puts code more dst v regs mem flags
  widen_clobbered inside p = record {
    after = p.after;
    runs = p.runs;
    result = p.result;
    others = λ k other free. p.others k other (inside k free);
  }

  sides_put :
      (dst lhs rhs : ℕ)
      → 0 < dst
      → (dst == t3) ≡ false
      → (dst == t0 && rhs == t3) ≡ false
      → (dst == lhs || not (dst == rhs)) ≡ true
      → (dst == t0 || not (rhs == t0) || not (dst == lhs) && not (lhs == t0)) ≡ true
      → Puts
          (emit_or_sides dst lhs rhs)
          (t0 ∷ t3 ∷ [])
          dst
          (bit_or (read_reg regs lhs) (read_reg regs rhs))
          regs
          mem
          flags
  sides_put dst lhs rhs h safe no_push first kept = elim (Bool-cases (dst == t0)) [
    | inl in_t0 ↦
        let no_t3 : (rhs == t3) ≡ false = ground arith in
        rw (in_t0, no_t3)
          (widen_clobbered (λ k free. ground arith)
            (sides dst lhs rhs t3 h (omega arith) safe no_t3 first))
    | inr not_t0 ↦ elim (Bool-cases (rhs == t0)) [
      | inl rhs_t0 ↦
          let no_lhs : (lhs == t0) ≡ false = ground arith in
          rw (not_t0, rhs_t0, no_lhs)
            (widen_clobbered (λ k free. ground arith)
              (Puts-eq regs mem flags (bit_or_comm (read_reg regs rhs) (read_reg regs lhs)) (
                macro_sides (move_unless_same dst rhs) dst lhs _
                  (sides dst rhs lhs t0 h (omega arith) not_t0 no_lhs (ground arith)))))
      | inr rhs_other ↦
          rw (not_t0, rhs_other)
            (widen_clobbered (λ k free. ground arith)
              (macro_sides (move_unless_same dst lhs) dst rhs _
                (sides dst lhs rhs t0 h (omega arith) not_t0 rhs_other first)))
    ]
  ]

  -- The emitted code leaves the or of the operands in `dst`, and may overwrite t0 and t3 but no other
  -- register and no memory. The registers hold words, `dst` is neither r0 nor t3, no operand is t3
  -- where `dst` is t0, and `IsOrSafe` holds: where `dst` is not t0, at most one operand is in t0, and
  -- the other is then not in `dst`.
  pub emit_or_rr-Puts :
      (dst a b : ℕ)
      → 0 < dst
      → (dst == t3) ≡ false
      → (dst == t0 && (a == t3 || b == t3)) ≡ false
      → IsOrSafe dst a b
      → Puts
          (emit_or_rr dst a b)
          (t0 ∷ t3 ∷ [])
          dst
          (bit_or (read_reg regs a) (read_reg regs b))
          regs
          mem
          flags
  unfolding emit_or_rr
  emit_or_rr-Puts dst a b h safe no_push kept = elim (Bool-cases (dst == b && not (dst == a))) [
    | inl swapped ↦ rw swapped (
        Puts-eq regs mem flags (bit_or_comm (read_reg regs b) (read_reg regs a))
          (sides_put dst b a h safe (ground arith) (ground arith) (ground arith)))
    | inr straight ↦
        rw straight (sides_put dst a b h safe (ground arith) (ground arith) (ground arith))
  ]

  -- Where `dst` is the first operand and the second is in t0, the first operand is lost: the code
  -- leaves the second in `dst`. The registers hold words and `dst` is neither r0 nor t0.
  pub emit_or_rr_loses :
      (dst : ℕ)
      → 0 < dst
      → (dst == t0) ≡ false
      → Puts (emit_or_rr dst dst t0) (t0 ∷ []) dst (read_reg regs t0) regs mem flags
  unfolding emit_or_rr
  emit_or_rr_loses dst h apart =
      let moved = write regs dst (read_reg regs t0) in
      let held : read_reg moved dst ≡ read_reg regs t0 = ground arith in
      let swapped : (t0 == dst) ≡ false = ground arith in
      rw apart (
        macro_sides (Asm.mov dst t0 ∷ []) dst dst _ (
          Puts-eq regs mem flags
            (ap₂ bit_or held held ∙ bit_or_idem (read_reg regs t0) (read_reg regs t0) (omega arith))
            (moved_first regs mem flags words _ _ dst t0 _ h (
              by_hand moved mem flags (write-AreWords dst t0) dst dst t0 h (omega arith) apart
                apart))))
