-- ===== src/Codegen/Puts.antt =====
-- What a piece of code leaves in a register, on the machine, and the code for immediates.
use compilador.Prelude.{
  ℕ, zero, suc, ◌+◌, ◌%◌, ◌<◌, ◌≡◌, refl, ap, ◌∙◌, false, ◌&&◌, List, [], leb, ◌==◌, inl, inr,
  arith, elem, Bool-cases,
}
use compilador.Prelude.Int.{ℤ, pos, negsuc}
use compilador.Codegen.Asm.{Asm, expand, word16}
use compilador.Codegen.Machine.{ready, read_reg, write, step, exec}
use compilador.Codegen.Registers.{emit_load_imm}
use compilador.Codegen.Emit.{emit_addi_imm}

-- The code, run in any state, leaves `v` of the registers in `rd`, and all other registers but
-- those of `clobbered` and the memory as they are.
pub record Puts (code : List Asm) (clobbered : List ℕ) (rd v : ℕ) (regs mem : ℕ → ℕ) (flags : ℕ × ℕ)
    : Type 0 where
  pub after : ℕ → ℕ
  pub runs : exec code (ready regs mem flags) ≡ ready after mem flags
  pub result : read_reg after rd ≡ v
  pub others :
      (k : ℕ) → (k == rd) ≡ false → elem k clobbered ≡ false → read_reg after k ≡ read_reg regs k

-- The registers hold words.
abbrev pub AreWords : (ℕ → ℕ) → Type 0
AreWords regs = (k : ℕ) → regs k < 65536

-- The constant is not one of 8, 9, .., 15, which are printed without a prefix.
abbrev pub IsLoadable : ℤ → Type 0
IsLoadable (pos n) = (leb 8 n && leb n 15) ≡ false
IsLoadable (negsuc n) = Unit

module _ (regs mem : ℕ → ℕ) (flags : ℕ × ℕ) where
  pub put_one :
      (code : List Asm) (clobbered : List ℕ) (rd v : ℕ)
      → 0 < rd
      → exec code (ready regs mem flags) ≡ ready (write regs rd v) mem flags
      → Puts code clobbered rd v regs mem flags
  put_one code clobbered rd v h e = record {
    after = write regs rd v;
    runs = e;
    result = ground arith;
    others = λ k other free. ground arith;
  }

  pub weaken :
      {code : List Asm} {clobbered : List ℕ} {rd v : ℕ}
      → Puts code [] rd v regs mem flags
      → Puts code clobbered rd v regs mem flags
  weaken p = record {
    after = p.after;
    runs = p.runs;
    result = p.result;
    others = λ k other free. p.others k other refl;
  }

  pub Puts-eq :
      {code : List Asm} {clobbered : List ℕ} {dst v w : ℕ}
      → v ≡ w
      → Puts code clobbered dst v regs mem flags
      → Puts code clobbered dst w regs mem flags
  Puts-eq e p = record { after = p.after; runs = p.runs; result = p.result ∙ e; others = p.others }

  -- A write of `v` that comes out as `w`.
  pub wrote :
      (rd : ℕ) {v w : ℕ}
      → v ≡ w
      → ready (write regs rd v) mem flags ≡ ready (write regs rd w) mem flags
  wrote rd e = ap (λ t. ready (write regs rd t) mem flags) e

  addi_imm_runs :
      (rd rs : ℕ) (offset : ℤ)
      → exec (emit_addi_imm rd rs offset) (ready regs mem flags)
        ≡ ready (write regs rd ((read_reg regs rs + word16 offset) % 65536)) mem flags
  unfolding emit_addi_imm exec expand step
  addi_imm_runs rd rs (pos n) = elim (Bool-cases (leb n 7)) [
    | inl small ↦ rw small (wrote rd (ground arith))
    | inr large ↦ rw large (wrote rd (ground arith))
  ]
  addi_imm_runs rd rs (negsuc n) = elim (Bool-cases (leb n 7)) [
    | inl small ↦ rw small (wrote rd (ground arith))
    | inr large ↦ rw large (wrote rd (ground arith))
  ]

  load_imm_runs :
      (rd : ℕ) (imm : ℤ)
      → IsLoadable imm
      → exec (emit_load_imm rd imm) (ready regs mem flags)
        ≡ ready (write regs rd (word16 imm)) mem flags
  unfolding emit_load_imm exec expand step
  load_imm_runs rd (pos zero) h = wrote rd (ground arith)
  load_imm_runs rd (pos (suc n)) h = elim (Bool-cases (leb (suc n) 15)) [
    | inl small ↦ rw small (wrote rd (ground arith))
    | inr large ↦ rw large (wrote rd (ground arith))
  ]
  load_imm_runs rd (negsuc n) h = wrote rd (ground arith)

  -- `emit_addi_imm` leaves the sum of the register and the offset, modulo 2 ^ 16, in `rd` and changes
  -- nothing else, for every offset, whether it needs the prefix or not. `rd` is not r0.
  pub emit_addi_imm-Puts :
      (rd rs : ℕ) (offset : ℤ)
      → 0 < rd
      → Puts
          (emit_addi_imm rd rs offset)
          []
          rd
          ((read_reg regs rs + word16 offset) % 65536)
          regs
          mem
          flags
  emit_addi_imm-Puts rd rs offset h = put_one _ _ _ _ h (addi_imm_runs rd rs offset)

  pub emit_load_imm-Puts :
      (rd : ℕ) (imm : ℤ)
      → 0 < rd
      → IsLoadable imm
      → Puts (emit_load_imm rd imm) [] rd (word16 imm) regs mem flags
  emit_load_imm-Puts rd imm h load = put_one _ _ _ _ h (load_imm_runs rd imm load)
