-- ===== src/Codegen/Frame.antt =====
-- The frame of a function (sections 2 and 4 of CodeGen/codegen.c): its layout, prologue and epilogue.
-- A word offset is one of `int`; slot ids and counts are below 2 ^ 31.
use compilador.Prelude.{
  ℕ, zero, suc, ◌+◌, ◌-◌, ◌/◌, ◌%◌, ◌^◌, bit_and, bit_or, Bool, true, false, not, ◌&&◌, List, [],
  ◌∷◌, ◌++◌, leb, ◌==◌, if◌then◌else◌, length, u32_max, drop,
}
use compilador.Prelude.Int.{ℤ, pos, negsuc}
use compilador.Ir.Types.{IrType}
use compilador.Ir.Instr.{Instr, Block, Function}
use compilador.Ir.Build.{find_slot}
use compilador.Precolor.{phys_none, phys_arg_regs, is_call}
use compilador.Regalloc.Select.{spill_color}
use compilador.Regalloc.Build.{Regalloc}
use compilador.Codegen.Asm.{Asm, t3, fp, sp, lr, word16}
use compilador.Codegen.Registers.{color_of}
use compilador.Codegen.Emit.{fits_nibble, emit_sp_adj}

abbrev pub count_slots : Function → ℕ
count_slots func = func.next_slot_id

-- `c != PHYS_NONE && c != REGALLOC_SPILL && c >= PHYS_R8 && c <= PHYS_R11`
abbrev pub is_callee_saved : ℕ → Bool
is_callee_saved c = not (c == phys_none) && (not (c == spill_color) && (leb 8 c && leb c 11))

-- The loop over the `n` registers from `v` on.
unfoldable pub mask_from : ℕ → ℕ → Regalloc → ℕ → ℕ
mask_from zero v ra mask = mask
mask_from (suc n) v ra mask =
    let c = color_of ra v in
    mask_from n (v + 1) ra (if is_callee_saved c then bit_or mask (2 ^ (c - 8)) else mask)

unfoldable pub callee_used_mask : Regalloc → ℕ
callee_used_mask ra = mask_from ra.n_vregs 0 ra 0

abbrev pub has_call : List Instr → Bool
has_call [] = false
has_call (i ∷ instrs) = if is_call i.op then true else has_call instrs

abbrev pub are_leaf : List Block → Bool
are_leaf [] = true
are_leaf (b ∷ blocks) = if has_call b.instrs then false else are_leaf blocks

unfoldable pub function_is_leaf : Function → Bool
function_is_leaf func = are_leaf func.blocks

-- `__builtin_popcount`, of a mask of `n` bits.
abbrev pub popcount : ℕ → ℕ → ℕ
popcount zero x = 0
popcount (suc n) x = x % 2 + popcount n (x / 2)

-- The words between the saved fp and the slots.
abbrev pub header_words : Function → Regalloc → ℕ
header_words func ra = (if function_is_leaf func then 0 else 1) + popcount 16 (callee_used_mask ra)

-- `-(slot_id + 1 + header)`
unfoldable pub slot_fp_offset : ℕ → Function → Regalloc → ℤ
slot_fp_offset slot_id func ra = negsuc (slot_id + header_words func ra)

-- `ultra`: no frame is needed.
abbrev pub needs_no_frame : Function → Regalloc → Bool
needs_no_frame func ra =
    function_is_leaf func
    && (count_slots func == 0
        && (callee_used_mask ra == 0 && leb (length func.params) phys_arg_regs))

-- `callee & (1u << i)`
abbrev pub is_used : ℕ → ℕ → Bool
is_used callee i = not (bit_and callee (2 ^ i) == 0)

abbrev pub push_used : ℕ → List ℕ → List Asm
push_used callee [] = []
push_used callee (i ∷ is) =
    if is_used callee i then Asm.push (8 + i) ∷ push_used callee is else push_used callee is

abbrev pub pop_used : ℕ → List ℕ → List Asm
pop_used callee [] = []
pop_used callee (i ∷ is) =
    if is_used callee i then Asm.pop (8 + i) ∷ pop_used callee is else pop_used callee is

-- `LW` or `SW` of t3 at a word of the frame, with the prefix where the offset needs it.
abbrev pub frame_access : (ℕ → ℕ → ℤ → Asm) → ℤ → List Asm
frame_access op off =
    if fits_nibble off
    then op t3 fp off ∷ []
    else Asm.imm_prefix (word16 off / 16) ∷ op t3 fp (pos (word16 off % 16)) ∷ []

-- The parameters on the stack, of which the first is at fp + 1.
unfoldable pub load_params : List (List ℕ × IrType) → ℕ → Function → Regalloc → List Asm
load_params [] caller_off func ra = []
load_params ((name, type) ∷ params) caller_off func ra =
    let rest = load_params params (caller_off + 1) func ra in
    let slot = find_slot func name in
    if slot == u32_max
    then rest
    else frame_access Asm.lw (pos caller_off)
      ++ (frame_access Asm.sw (slot_fp_offset slot func ra) ++ rest)

-- The pushes, with fp set in between.
unfoldable pub save_registers : Function → Regalloc → List Asm
save_registers func ra =
    Asm.push fp
    ∷ Asm.mov fp sp
    ∷ ((if function_is_leaf func then [] else Asm.push lr ∷ [])
        ++ push_used (callee_used_mask ra) (0 ∷ 1 ∷ 2 ∷ 3 ∷ []))

-- `-n` for a count
abbrev pub minus : ℕ → ℤ
minus zero = pos zero
minus (suc n) = negsuc n

unfoldable pub emit_prologue : Function → Regalloc → List Asm
unfolding save_registers
emit_prologue func ra =
    if needs_no_frame func ra
    then []
    else save_registers func ra
      ++ (emit_sp_adj (minus (count_slots func))
          ++ load_params (drop phys_arg_regs func.params) 1 func ra)

unfoldable pub restore_registers : Function → Regalloc → List Asm
restore_registers func ra =
    pop_used (callee_used_mask ra) (3 ∷ 2 ∷ 1 ∷ 0 ∷ [])
    ++ ((if function_is_leaf func then [] else Asm.pop lr ∷ []) ++ Asm.pop fp ∷ [])

unfoldable pub emit_epilogue : Function → Regalloc → List Asm
unfolding restore_registers
emit_epilogue func ra =
    if needs_no_frame func ra
    then Asm.ret ∷ []
    else emit_sp_adj (pos (count_slots func)) ++ (restore_registers func ra ++ Asm.ret ∷ [])
