-- ===== src/Codegen/Machine.antt =====
-- What the printed lines do, as assembler/README.md and docs/Code Generation Specification.md describe
-- the instructions: sixteen registers of 16 bits of which r0 reads as 0, and a memory of words. An
-- immediate without the prefix `IMM` is a signed number of 4 bits. A jump makes the machine look for
-- its label in the lines that follow; `sweep` starts again at the top while it looks for one. What the
-- machine does not describe (byte accesses, calls, jumps by a register) ends the run.
use Prim.Native.Nat.{bit_xor}
use compilador.Prelude.{
  ℕ, zero, suc, ◌+◌, ◌-◌, ◌*◌, ◌/◌, ◌%◌, ◌^◌, bit_and, Bool, true, false, List, [], ◌∷◌, Option,
  none, some, ltb, leb, ◌==◌, if◌then◌else◌,
}
use compilador.Prelude.Int.{ℤ}
use compilador.Codegen.Asm.{Asm, AluOp, Cond, Label, expand, word16, label_eq}

pub data Mode : Type 0 where
  going left : Mode
  seeking : Label → Mode

-- `flags` are the two numbers that were compared last.
pub record Machine : Type 0 where
  pub regs : ℕ → ℕ
  pub mem : ℕ → ℕ
  pub flags : ℕ × ℕ
  pub prefix : Option ℕ
  pub mode : Mode

abbrev pub ready : (ℕ → ℕ) → (ℕ → ℕ) → ℕ × ℕ → Machine
ready regs mem flags = record {
  regs = regs;
  mem = mem;
  flags = flags;
  prefix = none;
  mode = Mode.going;
}

abbrev pub read_reg : (ℕ → ℕ) → ℕ → ℕ
read_reg regs r = if r == 0 then 0 else regs r

abbrev pub write : (ℕ → ℕ) → ℕ → ℕ → ℕ → ℕ
write f r v k = if k == r then v else f k

-- A number of 4 bits as a word.
abbrev pub widen : ℕ → ℕ
widen n = if ltb n 8 then n else n + 65520

abbrev pub operand : Option ℕ → ℤ → ℕ
operand none i = widen (word16 i % 16)
operand (some upper) i = upper * 16 + word16 i % 16

-- `a` shifted right by `b`, the sign kept.
abbrev pub shift_signed : ℕ → ℕ → ℕ
shift_signed a b = if ltb a 32768 then a / 2 ^ b else 65535 - (65535 - a) / 2 ^ b

unfoldable pub compute : AluOp → ℕ → ℕ → ℕ
compute AluOp.add a b = (a + b) % 65536
compute AluOp.sub a b = (a + (65536 - b)) % 65536
compute AluOp.and a b = bit_and a b
compute AluOp.xor a b = bit_xor a b
compute AluOp.srl a b = a / 2 ^ b
compute AluOp.sra a b = shift_signed a b

-- The order of signed words.
abbrev pub biased : ℕ → ℕ
biased a = if ltb a 32768 then a + 32768 else a - 32768

unfoldable pub holds : Cond → ℕ × ℕ → Bool
holds Cond.always (a, b) = true
holds Cond.beq (a, b) = a == b
holds Cond.blt (a, b) = ltb (biased a) (biased b)
holds Cond.ble (a, b) = leb (biased a) (biased b)
holds Cond.bleu (a, b) = ltb a b
holds Cond.bletu (a, b) = leb a b

abbrev pub put : Machine → ℕ → ℕ → Machine
put m rd v = record m { regs = write m.regs rd v; prefix = none }

abbrev pub address : Machine → ℕ → ℤ → ℕ
address m rs i = (read_reg m.regs rs + operand m.prefix i) % 65536

unfoldable pub step : Asm → Machine → Machine
unfolding compute holds
step (Asm.addi rd rs i) m = put m rd (address m rs i)
step (Asm.imm_prefix upper) m = record m { prefix = some upper }
step (Asm.alu op rd rs) m = put m rd (compute op (read_reg m.regs rd) (read_reg m.regs rs))
step (Asm.cmp ra rb) m = record m {
  flags = (read_reg m.regs ra, read_reg m.regs rb);
  prefix = none;
}
step (Asm.rsubi rd i) m = put m rd ((operand m.prefix i + (65536 - read_reg m.regs rd)) % 65536)
step (Asm.andi rd i) m = put m rd (bit_and (read_reg m.regs rd) (operand m.prefix i))
step (Asm.xori rd i) m = put m rd (bit_xor (read_reg m.regs rd) (operand m.prefix i))
step (Asm.rcmpi rd i) m = record m {
  flags = (operand m.prefix i, read_reg m.regs rd);
  prefix = none;
}
step (Asm.lw rd rs i) m = put m rd (m.mem (address m rs i))
step (Asm.sw rd rs i) m = record m {
  mem = write m.mem (address m rs i) (read_reg m.regs rd);
  prefix = none;
}
step (Asm.branch_to c l) m = record m {
  mode = if holds c m.flags then Mode.seeking l else m.mode;
  prefix = none;
}
step (Asm.jump l) m = record m { mode = Mode.seeking l; prefix = none }
step (Asm.at_label l) m = m
step (Asm.at_name l) m = m
step _ m = record m { mode = Mode.left }

-- A line while the machine looks for a label.
abbrev pub pass_line : Label → Asm → Machine → Machine
pass_line l (Asm.at_label k) m = if label_eq l k then record m { mode = Mode.going } else m
pass_line l _ m = m

abbrev pub tick : Mode → Asm → Machine → Machine
tick Mode.going line m = step line m
tick Mode.left line m = m
tick (Mode.seeking l) line m = pass_line l line m

abbrev pub run_lines : List Asm → Machine → Machine
run_lines [] m = m
run_lines (line ∷ lines) m = run_lines lines (tick m.mode line m)

-- The printed lines, their macros expanded.
unfoldable pub exec : List Asm → Machine → Machine
unfolding expand
exec [] m = m
exec (line ∷ lines) m = exec lines (run_lines (expand line) m)

abbrev pub is_seeking : Mode → Bool
is_seeking (Mode.seeking l) = true
is_seeking Mode.going = false
is_seeking Mode.left = false

-- The run of a program with jumps in both directions, in at most so many sweeps.
unfoldable pub sweep : ℕ → List Asm → Machine → Machine
sweep zero lines m = m
sweep (suc fuel) lines m =
    let next = exec lines m in
    let rest = sweep fuel lines next in if is_seeking next.mode then rest else next
