-- ===== src/Codegen/Asm.antt =====
-- The assembly that CodeGen/codegen.c prints, and the macros of assembler/Step1/abi.m4. A constructor
-- stands for the line of its mnemonic or macro; comments and blank lines are left out. A register is
-- the number of its name in the table of `phys_name`.
use compilador.Prelude.{
  ℕ, zero, suc, ◌-◌, ◌/◌, ◌%◌, Bool, ◌&&◌, List, [], ◌∷◌, ltb, ◌==◌, if◌then◌else◌, bytes_eq,
}
use compilador.Prelude.Int.{ℤ, pos, negsuc}

-- The labels are scoped by the name of the function: `.L%s_bb%u`, `.cmp_true_%s_%u` and so on.
pub data LabelKind : Type 0 where
  block cmp_true cmp_false cmp_done shl_loop shl_done relax_take relax_skip : LabelKind

pub record Label : Type 0 where
  pub label_kind : LabelKind
  pub scope : List ℕ
  pub number : ℕ

pub data AluOp : Type 0 where
  add sub and xor srl sra : AluOp

-- `BR` is `always`; `BLEU` is the strict unsigned comparison, `BLETU` the other.
pub data Cond : Type 0 where
  always beq blt ble bleu bletu : Cond

pub data Asm : Type 0 where
  addi : ℕ → ℕ → ℤ → Asm
  imm_prefix : ℕ → Asm
  alu : AluOp → ℕ → ℕ → Asm
  cmp : ℕ → ℕ → Asm
  rsubi andi xori rcmpi : ℕ → ℤ → Asm
  lw lb sw sb : ℕ → ℕ → ℤ → Asm
  jump_link : ℕ → ℕ → ℤ → Asm
  branch_to : Cond → Label → Asm
  at_label : Label → Asm
  at_name : List ℕ → Asm
  mov : ℕ → ℕ → Asm
  push pop neg complement sll : ℕ → Asm
  or_macro : ℕ → ℕ → Asm
  li : ℕ → ℕ → Asm
  li_symbol : ℕ → List ℕ → Asm
  jump : Label → Asm
  call : List ℕ → Asm
  ret : Asm

abbrev pub r0 : ℕ
r0 = 0

abbrev pub a0 : ℕ
a0 = 1

abbrev pub a1 : ℕ
a1 = 2

abbrev pub t0 : ℕ
t0 = 4

abbrev pub t1 : ℕ
t1 = 5

abbrev pub t2 : ℕ
t2 = 6

abbrev pub t3 : ℕ
t3 = 7

abbrev pub s0 : ℕ
s0 = 8

abbrev pub fp : ℕ
fp = 12

abbrev pub sp : ℕ
sp = 13

abbrev pub lr : ℕ
lr = 14

-- The name "??", and the name "SPILL".
abbrev pub unknown_name : ℕ
unknown_name = 16

abbrev pub spill_name : ℕ
spill_name = 17

abbrev pub kind_code : LabelKind → ℕ
kind_code LabelKind.block = 0
kind_code LabelKind.cmp_true = 1
kind_code LabelKind.cmp_false = 2
kind_code LabelKind.cmp_done = 3
kind_code LabelKind.shl_loop = 4
kind_code LabelKind.shl_done = 5
kind_code LabelKind.relax_take = 6
kind_code LabelKind.relax_skip = 7

-- Equality of two label texts.
unfoldable pub label_eq : Label → Label → Bool
label_eq a b =
    kind_code a.label_kind == kind_code b.label_kind
    && (a.number == b.number && bytes_eq a.scope b.scope)

-- `(uint16_t)(int16_t)z`
abbrev pub word16 : ℤ → ℕ
word16 (pos n) = n % 65536
word16 (negsuc n) = 65535 - n % 65536

-- `(int)z` for a `long`
abbrev pub to_int : ℤ → ℤ
to_int (pos n) =
    let w = n % 4294967296 in if ltb w 2147483648 then pos w else negsuc (4294967295 - w)
to_int (negsuc n) =
    let w = n % 4294967296 in if ltb w 2147483648 then negsuc w else pos (4294967295 - w)

-- `-z` and `~z`
abbrev pub neg_ℤ : ℤ → ℤ
neg_ℤ (pos zero) = pos zero
neg_ℤ (pos (suc n)) = negsuc n
neg_ℤ (negsuc n) = pos (suc n)

abbrev pub not_ℤ : ℤ → ℤ
not_ℤ (pos n) = negsuc n
not_ℤ (negsuc n) = pos n

-- What a macro expands to; `CALL`, `J` and the form of `LI` that takes a symbol need the address of
-- the symbol and are not expanded.
unfoldable pub expand : Asm → List Asm
expand (Asm.mov rd rs) = Asm.addi rd rs (pos 0) ∷ []
expand (Asm.push r) = Asm.addi sp sp (negsuc 0) ∷ Asm.sw r sp (pos 0) ∷ []
expand (Asm.pop r) = Asm.lw r sp (pos 0) ∷ Asm.addi sp sp (pos 1) ∷ []
expand (Asm.neg rd) = Asm.rsubi rd (pos 0) ∷ []
expand (Asm.complement rd) = Asm.imm_prefix 4095 ∷ Asm.xori rd (negsuc 0) ∷ []
expand (Asm.or_macro rd rs) =
    Asm.addi t0 rd (pos 0)
    ∷ Asm.alu AluOp.and t0 rs
    ∷ Asm.alu AluOp.xor rd rs
    ∷ Asm.alu AluOp.xor rd t0
    ∷ []
expand (Asm.sll rd) = Asm.alu AluOp.add rd rd ∷ []
expand (Asm.li rd n) = Asm.imm_prefix (n / 16) ∷ Asm.addi rd r0 (pos (n % 16)) ∷ []
expand Asm.ret = Asm.jump_link r0 lr (pos 0) ∷ []
expand line = line ∷ []
