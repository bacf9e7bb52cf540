-- ===== src/Codegen/Call.antt =====
-- `IR_OP_CALL` of `emit_instr` in CodeGen/codegen.c: arguments on the stack, the parallel copy into
-- a0, a1 and a2, the call and its result.
use compilador.Prelude.{
  ℕ, zero, suc, ◌+◌, ◌^◌, bit_and, bit_or, Bool, true, false, not, ◌&&◌, List, [], ◌∷◌, ◌++◌, ltb,
  ◌==◌, if◌then◌else◌, length, get_or, set, take, drop,
}
use compilador.Prelude.Int.{pos}
use compilador.Ir.Types.{Value, no_value}
use compilador.Precolor.{phys_arg_regs}
use compilador.Regalloc.Build.{Regalloc}
use compilador.Codegen.Asm.{Asm, a0, t0, t1, t2, t3, sp, unknown_name}
use compilador.Codegen.Registers.{color_of, vreg2phys, emit_load_imm}
use compilador.Codegen.Emit.{emit_sp_adj}
use compilador.Codegen.Frame.{minus}

-- `arg_homes_mask`
abbrev pub add_home : Regalloc → Value → ℕ → ℕ
add_home ra (Value.vreg v type) mask =
    if ltb (color_of ra v) 16 then bit_or mask (2 ^ color_of ra v) else mask
add_home ra _ mask = mask

unfoldable pub arg_homes : Regalloc → List Value → ℕ → ℕ
arg_homes ra [] mask = mask
arg_homes ra (arg ∷ args) mask = arg_homes ra args (add_home ra arg mask)

abbrev pub first_outside : List ℕ → ℕ → ℕ
first_outside [] mask = t0
first_outside (r ∷ pool) mask = if bit_and mask (2 ^ r) == 0 then r else first_outside pool mask

unfoldable pub stack_scratch : Regalloc → List Value → ℕ
stack_scratch ra args = first_outside (t0 ∷ t1 ∷ t2 ∷ t3 ∷ []) (arg_homes ra args 0)

-- The store of one argument at sp + i.
abbrev pub store_arg : Regalloc → ℕ → ℕ → Value → List Asm
store_arg ra scratch i (Value.vreg v type) = Asm.sw (vreg2phys ra v) sp (pos i) ∷ []
store_arg ra scratch i (Value.imm k type) =
    emit_load_imm scratch k ++ Asm.sw scratch sp (pos i) ∷ []
store_arg ra scratch i (Value.global name type) =
    Asm.li_symbol scratch name ∷ Asm.sw scratch sp (pos i) ∷ []
store_arg ra scratch i _ = []

unfoldable pub store_args : Regalloc → ℕ → ℕ → List Value → List Asm
store_args ra scratch i [] = []
store_args ra scratch i (arg ∷ args) =
    store_arg ra scratch i arg ++ store_args ra scratch (i + 1) args

-- `arg_copy_t`: `arg` holds its kind, `imm` and `gname`; the name `src` of an argument that is no
-- register is NULL and never read.
pub record ArgCopy : Type 0 where
  pub dst : ℕ
  pub src : ℕ
  pub arg : Value
  pub done : Bool

abbrev pub new_copy : Regalloc → ℕ → Value → ArgCopy
new_copy ra dst (Value.vreg v type) =
    let src = vreg2phys ra v in
    record { dst = dst; src = src; arg = Value.vreg v type; done = dst == src }
new_copy ra dst (Value.imm k type) = record {
  dst = dst;
  src = unknown_name;
  arg = Value.imm k type;
  done = false;
}
new_copy ra dst (Value.global name type) = record {
  dst = dst;
  src = unknown_name;
  arg = Value.global name type;
  done = false;
}
new_copy ra dst (Value.slot s type) = record {
  dst = dst;
  src = unknown_name;
  arg = Value.slot s type;
  done = true;
}
new_copy ra dst (Value.label b) = record {
  dst = dst;
  src = unknown_name;
  arg = Value.label b;
  done = true;
}
new_copy ra dst Value.no_value = record {
  dst = dst;
  src = unknown_name;
  arg = no_value;
  done = true;
}

unfoldable pub new_copies : Regalloc → ℕ → List Value → List ArgCopy
new_copies ra dst [] = []
new_copies ra dst (arg ∷ args) = new_copy ra dst arg ∷ new_copies ra (dst + 1) args

-- `c->kind == IR_VAL_VREG`
abbrev pub is_register_arg : Value → Bool
is_register_arg (Value.vreg v type) = true
is_register_arg _ = false

-- `!(c->done || c->kind != IR_VAL_VREG)`
abbrev pub is_pending : ArgCopy → Bool
is_pending c = not c.done && is_register_arg c.arg

-- Does a pending copy other than the one at index `i` read `r`? `j` is the index of the head.
unfoldable pub is_blocked : List ArgCopy → ℕ → ℕ → ℕ → Bool
is_blocked [] j i r = false
is_blocked (o ∷ rest) j i r =
    if i == j
    then is_blocked rest (j + 1) i r
    else if is_pending o && o.src == r
    then true
    else is_blocked rest (j + 1) i r

abbrev pub no_copy : ArgCopy
no_copy = record { dst = unknown_name; src = unknown_name; arg = no_value; done = true }

-- The copies, the lines printed and whether this round printed one.
pub record Drain : Type 0 where
  pub cps : List ArgCopy
  pub out : List Asm
  pub drained : Bool

-- One turn of the inner `for` loop.
unfoldable pub drain_step : ℕ → Drain → Drain
unfolding is_blocked
drain_step i st =
    let c = get_or st.cps i no_copy in
    if is_pending c && not (is_blocked st.cps 0 i c.dst)
    then record {
      cps = set st.cps i (record c { done = true });
      out = st.out ++ Asm.mov c.dst c.src ∷ [];
      drained = true;
    }
    else st

abbrev pub drain_round : ℕ → ℕ → Drain → Drain
drain_round zero i st = st
drain_round (suc n) i st = drain_round n (i + 1) (drain_step i st)

-- `while (drained)`; a round but the last finishes a copy.
unfoldable pub drain_loop : ℕ → List ArgCopy → List Asm → List ArgCopy × List Asm
unfolding drain_step
drain_loop zero cps out = (cps, out)
drain_loop (suc fuel) cps out =
    let st = drain_round (length cps) 0 (record { cps = cps; out = out; drained = false }) in
    let rest = drain_loop fuel st.cps st.out in if st.drained then rest else (st.cps, st.out)

-- `o->src = "t3"` for the pending copies that read `r`.
abbrev pub redirect : ℕ → List ArgCopy → List ArgCopy
redirect r [] = []
redirect r (o ∷ rest) =
    (if is_pending o && o.src == r then record o { src = t3 } else o) ∷ redirect r rest

-- The source of the first pending copy.
abbrev pub first_pending : List ArgCopy → List ℕ
first_pending [] = []
first_pending (c ∷ rest) = if is_pending c then c.src ∷ [] else first_pending rest

-- `while (progress)`; where no copy is pending after the inner loop, one more round changes nothing.
unfoldable pub copy_loop : ℕ → List ArgCopy → List Asm → List ArgCopy × List Asm
unfolding drain_loop
copy_loop zero cps out = (cps, out)
copy_loop (suc fuel) cps out =
    let st = drain_loop (length cps + 1) cps out in
    elim (first_pending st.0) [
      | [] ↦ st
      | r ∷ rest ↦ copy_loop fuel (redirect r st.0) (st.1 ++ Asm.mov t3 r ∷ [])
    ]

-- Phase 3: the arguments that are no registers.
abbrev pub load_arg : ArgCopy → List Asm
load_arg c = elim c.arg [
  | Value.imm k type ↦ emit_load_imm c.dst k
  | Value.global name type ↦ Asm.li_symbol c.dst name ∷ []
  | _ ↦ []
]

abbrev pub load_rest : List ArgCopy → List Asm
load_rest [] = []
load_rest (c ∷ rest) = if c.done then load_rest rest else load_arg c ++ load_rest rest

unfoldable pub load_registers : Regalloc → List Value → List Asm
unfolding copy_loop
load_registers ra args =
    let st = copy_loop (length args + 1) (new_copies ra a0 args) [] in st.1 ++ load_rest st.0

-- The move of the result, where there is one.
abbrev pub return_move : Regalloc → Value → Bool → List Asm
return_move ra (Value.vreg v type) false =
    let dst = vreg2phys ra v in if dst == a0 then [] else Asm.mov dst a0 ∷ []
return_move ra _ _ = []

unfoldable pub emit_call : Regalloc → Value → List ℕ → List Value → Bool → List Asm
unfolding stack_scratch load_registers
emit_call ra dst callee args is_void =
    let on_stack = drop phys_arg_regs args in
    let nstack = length on_stack in
    emit_sp_adj (minus nstack)
    ++ (store_args ra (stack_scratch ra args) 0 on_stack
        ++ (load_registers ra (take phys_arg_regs args)
            ++ (Asm.call callee ∷ emit_sp_adj (pos nstack) ++ return_move ra dst is_void)))
