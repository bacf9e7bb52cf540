-- ===== src/Codegen/Registers.antt =====
-- `phys_name`, `vreg2phys`, `pick_scratch3` and `materialize_operand`. The registers of the
-- allocation are its `n_vregs` and `color`; a colour is read where there is one.
use compilador.Prelude.{
  ℕ, zero, suc, Bool, false, ◌||◌, List, [], ◌∷◌, Option, none, some, ltb, leb, ◌==◌, if◌then◌else◌,
  get_or,
}
use compilador.Prelude.Int.{ℤ, pos, negsuc}
use compilador.Ir.Types.{Value}
use compilador.Precolor.{phys_none}
use compilador.Regalloc.Select.{spill_color}
use compilador.Regalloc.Build.{Regalloc}
use compilador.Codegen.Asm.{Asm, r0, t0, t1, t2, t3, unknown_name, spill_name, word16}

abbrev pub phys_name : ℕ → ℕ
phys_name r = if ltb r 16 then r else unknown_name

-- `ra->color[v]`
abbrev pub color_of : Regalloc → ℕ → ℕ
color_of ra v = get_or ra.color v phys_none

unfoldable pub vreg2phys : Regalloc → ℕ → ℕ
vreg2phys ra v =
    if leb ra.n_vregs v
    then unknown_name
    else if color_of ra v == spill_color
    then spill_name
    else phys_name (color_of ra v)

-- `avoid && strcmp(cand, avoid) == 0`
abbrev pub avoided : ℕ → Option ℕ → Bool
avoided cand none = false
avoided cand (some r) = cand == r

pick_from : List ℕ → Option ℕ → Option ℕ → Option ℕ → ℕ
pick_from [] x y z = t3
pick_from (cand ∷ cands) x y z =
    if avoided cand x || (avoided cand y || avoided cand z) then pick_from cands x y z else cand

unfoldable pub pick_scratch3 : Option ℕ → Option ℕ → Option ℕ → ℕ
unfolding pick_from
pick_scratch3 x y z = pick_from (t3 ∷ t2 ∷ t1 ∷ t0 ∷ []) x y z

unfoldable pub emit_load_imm : ℕ → ℤ → List Asm
emit_load_imm rd (pos zero) = Asm.mov rd r0 ∷ []
emit_load_imm rd (pos (suc n)) =
    if leb (suc n) 15
    then Asm.addi rd r0 (pos (suc n)) ∷ []
    else Asm.li rd (word16 (pos (suc n))) ∷ []
emit_load_imm rd (negsuc n) = Asm.li rd (word16 (negsuc n)) ∷ []

-- The register and the lines printed.
unfoldable pub materialize_operand : Value → Regalloc → ℕ → ℕ × List Asm
materialize_operand (Value.vreg v type) ra scratch = (vreg2phys ra v, [])
materialize_operand (Value.imm (pos zero) type) ra scratch = (r0, [])
materialize_operand (Value.imm (pos (suc n)) type) ra scratch =
    (scratch, emit_load_imm scratch (pos (suc n)))
materialize_operand (Value.imm (negsuc n) type) ra scratch =
    (scratch, emit_load_imm scratch (negsuc n))
materialize_operand (Value.global name type) ra scratch = (scratch, Asm.li_symbol scratch name ∷ [])
materialize_operand (Value.slot s type) ra scratch = (scratch, [])
materialize_operand (Value.label b) ra scratch = (scratch, [])
materialize_operand Value.no_value ra scratch = (scratch, [])
