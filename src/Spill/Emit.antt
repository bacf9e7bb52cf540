-- ===== src/Spill/Emit.antt =====
-- `emit_reload` and `emit_store_spill`: the code around a use and after a definition.
use compilador.Prelude.{ℕ, List, [], ◌∷◌, ◌++◌}
use compilador.Ir.Types.{IrType, vreg, slot}
use compilador.Ir.Instr.{Op, Instr, Function}
use compilador.Ir.Build.{instr_new, new_vreg}

-- The function, for its counter, and the list from `new_head` to `new_tail`.
pub record Emit : Type 0 where
  pub func : Function
  pub out : List Instr

unfoldable pub list_push : Emit → Instr → Emit
list_push st i = record st { out = st.out ++ i ∷ [] }

abbrev pub fresh : Emit → ℕ × Emit
fresh st = let (v, func) = new_vreg st.func in (v, record st { func = func })

-- `%p = addr_of %slot`
abbrev pub addr_instr : ℕ → ℕ → IrType → Instr
addr_instr p slot_id vtype = record (instr_new Op.addr_of) {
  dst = vreg p IrType.ptr;
  src0 = slot slot_id vtype;
}

-- `%r = *%p`
abbrev pub load_instr : ℕ → ℕ → IrType → Instr
load_instr r p vtype = record (instr_new Op.load) { dst = vreg r vtype; src0 = vreg p IrType.ptr }

-- `*%p = %v`
abbrev pub store_instr : ℕ → ℕ → IrType → Instr
store_instr p v vtype = record (instr_new Op.store) {
  src0 = vreg p IrType.ptr;
  src1 = vreg v vtype;
}

unfoldable pub emit_reload : Emit → ℕ → IrType → ℕ × Emit
unfolding list_push
emit_reload st slot_id vtype =
    let (p, st_p) = fresh st in
    let (r, st_r) = fresh (list_push st_p (addr_instr p slot_id vtype)) in
    (r, list_push st_r (load_instr r p vtype))

unfoldable pub emit_store_spill : Emit → ℕ → ℕ → IrType → Emit
unfolding list_push
emit_store_spill st slot_id v vtype =
    let (p, st_p) = fresh st in
    list_push (list_push st_p (addr_instr p slot_id vtype)) (store_instr p v vtype)
