-- ===== src/Precolor.antt =====
-- CodeGen/RegAlloc/precolor.c: the registers that the ABI fixes. A colour is the number of a physical
-- register, or `PHYS_NONE`. `liv` is a result of the liveness analysis, never NULL. A failed `assert`
-- of a set operation is `none`.
pub mod Pinned
pub mod CallLive
use compilador.Prelude.{
  ℕ, zero, suc, ◌+◌, ◌≡◌, Bool, true, false, not, ◌&&◌, ◌||◌, List, [], ◌∷◌, Option, none, some,
  ltb, leb, ◌==◌, if◌then◌else◌, ◌>>=◌, get_or, set, replicate, length,
}
use compilador.VregSet.{VregSet, init, remove, has, union_into}
use compilador.Ir.Types.{Value, vreg_of, is_vreg}
use compilador.Ir.Instr.{Op, Instr, Function}
use compilador.Liveness.Result.{IrLiveness, instrs_of}

abbrev pub phys_none : ℕ
phys_none = 255

-- `PHYS_R1`; the argument registers follow it.
abbrev pub phys_r1 : ℕ
phys_r1 = 1

abbrev pub phys_arg_regs : ℕ
phys_arg_regs = 3

pub record Precolor : Type 0 where
  pub n_vregs : ℕ
  pub color : List ℕ
  pub call_live : VregSet

abbrev pub no_set : VregSet
no_set = record { words = []; cap = 0 }

-- `liv->instr[idx].live_after`
abbrev pub live_after_at : IrLiveness → ℕ → VregSet
live_after_at liv idx = get_or liv.live_after idx no_set

abbrev pub is_call : Op → Bool
is_call (Op.call callee args is_void_call) = true
is_call _ = false

abbrev pub call_args : Op → List Value
call_args (Op.call callee args is_void_call) = args
call_args _ = []

abbrev pub is_ret : Op → Bool
is_ret Op.ret = true
is_ret _ = false

-- Pattern 1: the parameters from `i` on, in the registers from r1 on.
unfoldable pub pin_params : ℕ → ℕ → List ℕ → List ℕ
pin_params zero i color = color
pin_params (suc n) i color = pin_params n (i + 1) (set color i (phys_r1 + i))

abbrev pub at_most_args : ℕ → ℕ
at_most_args n = if ltb n phys_arg_regs then n else phys_arg_regs

remove_result : VregSet → Option ℕ → Option VregSet
remove_result s none = some s
remove_result s (some vr) = remove s vr

-- Pass 1, one instruction.
unfoldable pub scout_step : IrLiveness → ℕ → VregSet → Instr → Option VregSet
unfolding remove_result
scout_step liv idx call_live ins =
    if is_call ins.op && ltb idx liv.n_instrs
    then remove_result (union_into call_live (live_after_at liv idx)).0 (vreg_of ins.dst)
    else some call_live

unfoldable pub scout : IrLiveness → ℕ → VregSet → List Instr → Option VregSet
unfolding scout_step
scout liv idx call_live [] = some call_live
scout liv idx call_live (ins ∷ rest) =
    scout_step liv idx call_live ins >>= λ s. scout liv (idx + 1) s rest

pin : List ℕ → Option ℕ → ℕ → List ℕ
pin color none want = color
pin color (some vr) want = set color vr want

-- Pattern 2
paint_ret : List ℕ → Instr → List ℕ
unfolding pin
paint_ret color ins = if is_ret ins.op then pin color (vreg_of ins.src0) phys_r1 else color

-- Pattern 3
paint_result : VregSet → List ℕ → Option ℕ → List ℕ
paint_result call_live color none = color
paint_result call_live color (some vr) = if has call_live vr then color else set color vr phys_r1

is_arg : ℕ → List Value → Bool
is_arg ov [] = false
is_arg ov (arg ∷ args) = is_vreg ov arg || is_arg ov args

-- Is `want` held by a register other than `vr`, among those below `n`, that is live at the call?
conflict : ℕ → List ℕ → ℕ → ℕ → (ℕ → Bool) → Bool
conflict zero color vr want live = false
conflict (suc n) color vr want live =
    (not (n == vr) && (get_or color n 0 == want && live n)) || conflict n color vr want live

-- Pattern 4 for one argument.
paint_arg : IrLiveness → ℕ → VregSet → List Value → ℕ → List ℕ → ℕ → Option ℕ → List ℕ
unfolding conflict is_arg
paint_arg liv idx call_live args n color i none = color
paint_arg liv idx call_live args n color i (some vr) =
    if has call_live vr
    then color
    else let want = phys_r1 + i in
      if get_or color vr 0 == phys_none
      then if conflict n color vr want
          (λ ov. (ltb idx liv.n_instrs && has (live_after_at liv idx) ov) || is_arg ov args)
        then color
        else set color vr want
      else color

-- The first `k` arguments of `rest`; `args` are all of them.
paint_args : IrLiveness → ℕ → VregSet → List Value → ℕ → ℕ → List Value → ℕ → List ℕ → List ℕ
unfolding paint_arg
paint_args liv idx call_live args n zero rest i color = color
paint_args liv idx call_live args n (suc k) [] i color = color
paint_args liv idx call_live args n (suc k) (arg ∷ rest) i color =
    paint_args liv idx call_live args n k rest (i + 1)
      (paint_arg liv idx call_live args n color i (vreg_of arg))

-- Pass 2, one instruction.
paint_step : IrLiveness → ℕ → VregSet → ℕ → List ℕ → Instr → List ℕ
unfolding paint_ret paint_result paint_args
paint_step liv idx call_live n color ins =
    let color' = paint_ret color ins in
    let args = call_args ins.op in
    if is_call ins.op
    then paint_args liv idx call_live args n (at_most_args (length args)) args 0
        (paint_result call_live color' (vreg_of ins.dst))
    else color'

paint : IrLiveness → ℕ → VregSet → ℕ → List ℕ → List Instr → List ℕ
unfolding paint_step
paint liv idx call_live n color [] = color
paint liv idx call_live n color (ins ∷ rest) =
    paint liv (idx + 1) call_live n (paint_step liv idx call_live n color ins) rest

unfoldable pub precolor_build : Function → IrLiveness → Option Precolor
unfolding pin_params scout paint
precolor_build func liv =
    let n = func.next_vreg in
    if n == 0 then some (record { n_vregs = 0; color = []; call_live = init 0 }) else do
      let color = pin_params (at_most_args (length func.params)) 0 (replicate n phys_none)
      call_live ← scout liv 0 (init n) (instrs_of func.blocks)
      some (record {
        n_vregs = n;
        color = paint liv 0 call_live n color (instrs_of func.blocks);
        call_live = call_live;
      })

unfoldable pub precolor_get : Precolor → ℕ → ℕ
precolor_get p vreg = if leb p.n_vregs vreg then phys_none else get_or p.color vreg 0

unfoldable pub precolor_is_fixed : Precolor → ℕ → Bool
unfolding precolor_get
precolor_is_fixed p vreg = not (precolor_get p vreg == phys_none)

unfoldable pub precolor_is_call_live : Precolor → ℕ → Bool
precolor_is_call_live p vreg = if leb p.n_vregs vreg then false else has p.call_live vreg
