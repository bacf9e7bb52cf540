-- ===== src/Codegen/Relax.antt =====
-- Branch relaxation (section 8.5 of CodeGen/codegen.c) and the emission of a function. The buffer is the
-- list of its lines, so what `parse_label_line` and `parse_branch_line` recognise are constructors.
use compilador.Prelude.{
  ℕ, zero, suc, ◌+◌, Bool, true, false, ◌||◌, List, [], ◌∷◌, ◌++◌, Option, none, some, ltb,
  if◌then◌else◌, ◌>>=◌,
}
use compilador.Ir.Instr.{Instr, Block, Function}
use compilador.Regalloc.Build.{Regalloc}
use compilador.Codegen.Asm.{Asm, Cond, Label, LabelKind, always, label_eq}
use compilador.Codegen.Emit.{label_in}
use compilador.Codegen.Frame.{emit_prologue}
use compilador.Codegen.Opcodes.{emit_instr, block_label}

-- `BRANCH_RELAX_THRESHOLD`
abbrev pub branch_relax_threshold : ℕ
branch_relax_threshold = 120

-- The physical instructions of a line: those of its macro, 0 for a label, else 1.
unfoldable pub line_instr_count : Asm → ℕ
line_instr_count (Asm.at_label l) = 0
line_instr_count (Asm.at_name name) = 0
line_instr_count (Asm.push r) = 2
line_instr_count (Asm.pop r) = 2
line_instr_count (Asm.li rd n) = 2
line_instr_count (Asm.li_symbol rd name) = 2
line_instr_count (Asm.call name) = 2
line_instr_count (Asm.jump l) = 2
line_instr_count (Asm.complement rd) = 2
line_instr_count (Asm.or_macro rd rs) = 4
line_instr_count _ = 1

-- Does the line define the label?
abbrev pub defines : Label → Asm → Bool
defines l (Asm.at_label k) = label_eq k l
defines l _ = false

-- The index of the instruction behind the first line with the label; `idx` is that of the first line.
unfoldable pub find_label : List Asm → ℕ → Label → Option ℕ
unfolding line_instr_count
find_label [] idx l = none
find_label (line ∷ lines) idx l =
    if defines l line then some idx else find_label lines (idx + line_instr_count line) l

-- `delta > BRANCH_RELAX_THRESHOLD || delta < -BRANCH_RELAX_THRESHOLD`
abbrev pub is_far : ℕ → ℕ → Bool
is_far target idx =
    ltb (idx + branch_relax_threshold) target || ltb (target + branch_relax_threshold) idx

-- The flag of a branch at index `idx`; a label that is not there is left to the assembler.
unfoldable pub needs_relaxing : List Asm → ℕ → Asm → Bool
unfolding find_label
needs_relaxing program idx (Asm.branch_to c l) = elim (find_label program 0 l) [
  | none ↦ false
  | some target ↦ is_far target idx
]
needs_relaxing program idx _ = false

abbrev pub is_always : Cond → Bool
is_always Cond.always = true
is_always _ = false

-- What takes the place of a branch, and the next number of a trampoline.
abbrev pub relaxed : List ℕ → ℕ → Cond → Label → List Asm × ℕ
relaxed name k c l = if is_always c then (Asm.jump l ∷ [], k) else (
  Asm.branch_to c (label_in LabelKind.relax_take name k)
      ∷ Asm.branch_to always (label_in LabelKind.relax_skip name k)
      ∷ Asm.at_label (label_in LabelKind.relax_take name k)
      ∷ Asm.jump l
      ∷ Asm.at_label (label_in LabelKind.relax_skip name k)
      ∷ [],
  k + 1,
)

abbrev pub relax_line : List ℕ → ℕ → Asm → List Asm × ℕ
relax_line name k (Asm.branch_to c l) = relaxed name k c l
relax_line name k line = (line ∷ [], k)

-- The lines from index `idx` on, the flagged branches replaced.
unfoldable pub relax_lines : List ℕ → List Asm → List Asm → ℕ → ℕ → List Asm × ℕ
unfolding needs_relaxing line_instr_count
relax_lines name program [] idx k = ([], k)
relax_lines name program (line ∷ lines) idx k =
    let (first, next) =
      if needs_relaxing program idx line then relax_line name k line else (line ∷ [], k) in
    let (rest, last) = relax_lines name program lines (idx + line_instr_count line) next in
    (first ++ rest, last)

-- `any_relax`
unfoldable pub any_relax : List Asm → List Asm → ℕ → Bool
unfolding needs_relaxing line_instr_count
any_relax program [] idx = false
any_relax program (line ∷ lines) idx =
    needs_relaxing program idx line || any_relax program lines (idx + line_instr_count line)

-- The rounds of `relax_branches_once`, until one changes nothing.
unfoldable pub relax_loop : ℕ → List ℕ → List Asm → ℕ → List Asm
unfolding relax_lines any_relax
relax_loop zero name program k = program
relax_loop (suc iter) name program k =
    let (next, last) = relax_lines name program program 0 k in
    let rest = relax_loop iter name next last in
    if any_relax program program 0 then rest else program

unfoldable pub emit_instrs : List Instr → Function → Regalloc → ℕ → Option (List Asm × ℕ)
unfolding emit_instr
emit_instrs [] func ra lbl = some ([], lbl)
emit_instrs (ins ∷ instrs) func ra lbl = do
  (first, next) ← emit_instr ins func ra lbl
  (rest, last) ← emit_instrs instrs func ra next
  some (first ++ rest, last)

unfoldable pub emit_block : Block → Function → Regalloc → ℕ → Option (List Asm × ℕ)
unfolding emit_instrs
emit_block block func ra lbl = do
  (lines, last) ← emit_instrs block.instrs func ra lbl
  some (Asm.at_label (block_label func block.id) ∷ lines, last)

unfoldable pub emit_blocks : List Block → Function → Regalloc → ℕ → Option (List Asm × ℕ)
unfolding emit_block
emit_blocks [] func ra lbl = some ([], lbl)
emit_blocks (block ∷ blocks) func ra lbl = do
  (first, next) ← emit_block block func ra lbl
  (rest, last) ← emit_blocks blocks func ra next
  some (first ++ rest, last)

-- The lines before relaxation.
unfoldable pub emit_lines : Function → Regalloc → Option (List Asm)
unfolding emit_blocks emit_prologue
emit_lines func ra = do
  (lines, last) ← emit_blocks func.blocks func ra 0
  some (Asm.at_name func.name ∷ (emit_prologue func ra ++ lines))

-- `open_memstream` succeeds.
unfoldable pub codegen_emit_function : Function → Regalloc → Option (List Asm)
unfolding emit_lines relax_loop
codegen_emit_function func ra = do
  lines ← emit_lines func ra
  some (relax_loop 16 func.name lines 0)
