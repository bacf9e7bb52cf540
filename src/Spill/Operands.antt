-- ===== src/Spill/Operands.antt =====
-- One operand, and the list of arguments, before and after the reloads of one entry.
use compilador.Prelude.{
  ◌+◌, ◌*◌, ◌^◌, ◌≤◌, ◌<◌, ◌≡◌, refl, ◌⊎◌, inl, inr, true, false, List, [], ◌∷◌, ◌++◌, arith, All,
  length, Bool-cases,
}
use compilador.Ir.Types.{Value, vreg, is_vreg}
use compilador.Ir.Instr.{Op}
use compilador.Spill.Entries.{SpillEntry, args_of}
use compilador.Spill.Emit.{Emit}
use compilador.Spill.Rewrite.{reload_value, reload_args, reload_op}
use compilador.Spill.Reloads.{
  Reload, Any, Any-append, IsEmitted, counter, emits-none, emits-join, emit_reload-eq,
  length-append,
}

-- The operand is no register of the entries and stays, or a reload of its register takes its place.
abbrev pub IsServed : List Reload → List SpillEntry → Value → Value → Type 0
IsServed rs es old new =
    ((new ≡ old) × All (λ e. is_vreg e.vreg_id old ≡ false) es)
    ⊎ Any (λ r. (is_vreg r.entry.vreg_id old ≡ true) × (new ≡ vreg (r.ptr + 1) r.entry.vtype)) rs

abbrev pub AreServed : List Reload → List SpillEntry → List Value → List Value → Type 0
AreServed rs es [] [] = Unit
AreServed rs es [] (n ∷ ns) = ⊥
AreServed rs es (o ∷ os) [] = ⊥
AreServed rs es (o ∷ os) (n ∷ ns) = IsServed rs es o n × AreServed rs es os ns

pub served-widen :
    (rs ss : List Reload) (es : List SpillEntry) (old new : Value)
    → IsServed rs es old new ⊎ IsServed ss es old new
    → IsServed (rs ++ ss) es old new
served-widen rs ss es old new (inl (inl kept)) = inl kept
served-widen rs ss es old new (inl (inr hit)) = inr (Any-append _ rs ss (inl hit))
served-widen rs ss es old new (inr (inl kept)) = inl kept
served-widen rs ss es old new (inr (inr hit)) = inr (Any-append _ rs ss (inr hit))

pub AreServed-widen :
    (rs ss : List Reload) (es : List SpillEntry) (olds news : List Value)
    → AreServed rs es olds news ⊎ AreServed ss es olds news
    → AreServed (rs ++ ss) es olds news
AreServed-widen rs ss es [] [] h = tt
AreServed-widen rs ss es [] (n ∷ ns) (inl h) = h
AreServed-widen rs ss es [] (n ∷ ns) (inr h) = h
AreServed-widen rs ss es (o ∷ os) [] (inl h) = h
AreServed-widen rs ss es (o ∷ os) [] (inr h) = h
AreServed-widen rs ss es (o ∷ os) (n ∷ ns) (inl h) =
    (served-widen rs ss es o n (inl h.0), AreServed-widen rs ss es os ns (inl h.1))
AreServed-widen rs ss es (o ∷ os) (n ∷ ns) (inr h) =
    (served-widen rs ss es o n (inr h.0), AreServed-widen rs ss es os ns (inr h.1))

pub reload_value-IsServed :
    (e : SpillEntry) (st : Emit) (value : Value)
    → counter st + 2 < 2 ^ 32
    → (rs : List Reload) × IsEmitted (e ∷ []) st rs (reload_value e st value).1
      × (length rs ≤ 1)
      × IsServed rs (e ∷ []) value (reload_value e st value).0
unfolding reload_value
reload_value-IsServed e st value room = elim (Bool-cases (is_vreg e.vreg_id value)) [
  | inl hit ↦ (
    record { entry = e; ptr = counter st } ∷ [],
    rw (hit, emit_reload-eq st e.slot_id e.vtype room)
        (record { out = refl; moved = omega arith; numbered = (refl, tt); known = (inl refl, tt) }),
    omega arith,
    rw (hit, emit_reload-eq st e.slot_id e.vtype room) (inr (inl (refl, refl))),
  )
  | inr other ↦
      ([], rw other (emits-none (e ∷ []) st), omega arith, rw other (inl (refl, (refl, tt))))
]

reload_args-AreServed :
    (e : SpillEntry) (st : Emit) (args : List Value)
    → counter st + 2 * length args < 2 ^ 32
    → (rs : List Reload) × IsEmitted (e ∷ []) st rs (reload_args e st args).1
      × (length rs ≤ length args)
      × AreServed rs (e ∷ []) args (reload_args e st args).0
unfolding reload_args
reload_args-AreServed e st [] room = ([], emits-none (e ∷ []) st, omega arith, tt)
reload_args-AreServed e st (arg ∷ args) room =
    let (rs, a, la, sa) = reload_value-IsServed e st arg (omega arith) in
    let mid = (reload_value e st arg).1 in
    let (ss, b, lb, sb) = reload_args-AreServed e mid args (omega (arith, a.moved)) in
    (
      rs ++ ss,
      emits-join st mid _ rs ss a b,
      omega (arith, length-append rs ss),
      (served-widen rs ss (e ∷ []) arg _ (inl sa), AreServed-widen rs ss (e ∷ []) args _ (inr sb)),
    )

-- The opcode with other arguments, where it is a call.
abbrev pub with_args : Op → List Value → Op
with_args (Op.call callee args is_void_call) args' = Op.call callee args' is_void_call
with_args op args = op

pub reload_op-AreServed :
    (e : SpillEntry) (st : Emit) (op : Op)
    → counter st + 2 * length (args_of op) < 2 ^ 32
    → (rs : List Reload) × IsEmitted (e ∷ []) st rs (reload_op e st op).1
      × (length rs ≤ length (args_of op))
      × AreServed rs (e ∷ []) (args_of op) (args_of (reload_op e st op).0)
      × ((reload_op e st op).0 ≡ with_args op (args_of (reload_op e st op).0))
unfolding reload_op
reload_op-AreServed e st (Op.call callee args is_void_call) room =
    let (rs, a, la, sa) = reload_args-AreServed e st args room in (rs, a, la, sa, refl)
reload_op-AreServed e st op room = ([], emits-none (e ∷ []) st, omega arith, tt, refl)
