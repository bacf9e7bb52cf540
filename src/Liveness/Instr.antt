-- ===== src/Liveness/Instr.antt =====
-- `instr_get_def` and `instr_get_uses` of liveness.c, the copy of the former in interference.c, and
-- `block_get_succs`.
use compilador.Prelude.{
  ℕ, List, [], ◌∷◌, ◌++◌, Option, none, some, map, ltb, if◌then◌else◌, length, get_last?,
}
use compilador.Ir.Types.{Value, vreg, slot, global, imm, label, no_value, vreg_of}
use compilador.Ir.Instr.{Op, Instr, Block}

-- The switch on the opcode; `none` is the result 0.
pub op_def : Op → Value → Option ℕ
op_def Op.store dst = none
op_def (Op.goto t) dst = none
op_def (Op.branch t f) dst = none
op_def (Op.switch d cases) dst = none
op_def Op.ret dst = none
op_def (Op.call callee args is_void_call) dst = if is_void_call then none else vreg_of dst
op_def _ dst = vreg_of dst

unfoldable pub instr_get_def : Instr → Option ℕ
unfolding op_def
instr_get_def i = op_def i.op i.dst

-- The macro `PUSH`: `uses` has room for `max` ids.
push : ℕ → List ℕ → Value → List ℕ
push max uses (vreg v type) = if ltb (length uses) max then uses ++ v ∷ [] else uses
push max uses (slot s type) = uses
push max uses (global name type) = uses
push max uses (imm k type) = uses
push max uses (label b) = uses
push max uses no_value = uses

push_args : ℕ → List ℕ → List Value → List ℕ
unfolding push
push_args max uses [] = uses
push_args max uses (arg ∷ args) =
    let rest = push_args max (push max uses arg) args in
    if ltb (length uses) max then rest else uses

pub op_uses : Op → Value → Value → ℕ → List ℕ
unfolding push push_args
op_uses (Op.goto t) src0 src1 max = []
op_uses (Op.branch t f) src0 src1 max = push max [] src0
op_uses (Op.switch d cases) src0 src1 max = push max [] src0
op_uses Op.ret src0 src1 max = push max [] src0
op_uses Op.store src0 src1 max = push max (push max [] src0) src1
op_uses (Op.call callee args is_void_call) src0 src1 max = push_args max [] args
op_uses Op.addr_of src0 src1 max = []
op_uses Op.const src0 src1 max = []
op_uses _ src0 src1 max = push max (push max [] src0) src1

unfoldable pub instr_get_uses : Instr → ℕ → List ℕ
unfolding op_uses
instr_get_uses i max = op_uses i.op i.src0 i.src1 max

-- `out[n++] = id` while there is room.
put : ℕ → List ℕ → ℕ → List ℕ
put max out id = if ltb (length out) max then out ++ id ∷ [] else out

put_cases : ℕ → List ℕ → List ℕ → List ℕ
unfolding put
put_cases max out [] = out
put_cases max out (id ∷ ids) = put_cases max (put max out id) ids

op_succs : Op → ℕ → List ℕ
unfolding put put_cases
op_succs (Op.goto t) max = put max [] t
op_succs (Op.branch t f) max = put max (put max [] t) f
op_succs (Op.switch d cases) max = put_cases max (put max [] d) (map (λ c. c.1) cases)
op_succs _ max = []

term_succs : Option Instr → ℕ → List ℕ
unfolding op_succs
term_succs none max = []
term_succs (some term) max = op_succs term.op max

unfoldable pub block_get_succs : Block → ℕ → List ℕ
unfolding term_succs
block_get_succs blk max = term_succs (get_last? blk.instrs) max
