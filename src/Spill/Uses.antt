-- ===== src/Spill/Uses.antt =====
-- An instruction before and after the USE pass.
use compilador.Prelude.{
  ℕ, zero, suc, ◌+◌, ◌*◌, ◌^◌, ◌≤◌, ◌<◌, ◌≡◌, refl, ◌∙◌, ap, sym, subst, inl, inr, true, false,
  List, [], ◌∷◌, ◌++◌, arith, All, length,
}
use compilador.Ir.Types.{IrType, Value, vreg, is_vreg}
use compilador.Ir.Instr.{Op, Instr}
use compilador.Spill.Entries.{SpillEntry, args_of}
use compilador.Spill.Emit.{Emit}
use compilador.Spill.Rewrite.{reload_value, use_entry, use_pass}
use compilador.Spill.Reloads.{
  Reload, Any, Any-append, IsEmitted, counter, emits-none, emits-join, emits-widen, length-append,
  IsNumbered-above,
}
use compilador.Spill.Operands.{
  served-widen, AreServed-widen, reload_value-IsServed, reload_op-AreServed, IsServed, AreServed,
  with_args,
}

-- The instruction after the USE pass: another choice of operands, and nothing else.
pub record IsRewritten (rs : List Reload) (es : List SpillEntry) (old new : Instr) : Type 0 where
  pub first : IsServed rs es old.src0 new.src0
  pub second : IsServed rs es old.src1 new.src1
  pub args : AreServed rs es (args_of old.op) (args_of new.op)
  pub op_eq : new.op ≡ with_args old.op (args_of new.op)
  pub dst_eq : new.dst ≡ old.dst

use_entry-IsRewritten :
    (e : SpillEntry) (st : Emit) (i : Instr)
    → counter st + 2 * (2 + length (args_of i.op)) < 2 ^ 32
    → (rs : List Reload) × IsEmitted (e ∷ []) st rs (use_entry e st i).1
      × (length rs ≤ 2 + length (args_of i.op))
      × IsRewritten rs (e ∷ []) i (use_entry e st i).0
unfolding use_entry
use_entry-IsRewritten e st i room =
    let (r0, a0, l0, s0) = reload_value-IsServed e st i.src0 (omega arith) in
    let st0 = (reload_value e st i.src0).1 in
    let (r1, a1, l1, s1) = reload_value-IsServed e st0 i.src1 (omega (arith, a0.moved)) in
    let st1 = (reload_value e st0 i.src1).1 in
    let (r2, a2, l2, s2, same) =
      reload_op-AreServed e st1 i.op (omega (arith, a0.moved, a1.moved)) in
    (
      r0 ++ (r1 ++ r2),
      emits-join st st0 _ r0 (r1 ++ r2) a0 (emits-join st0 st1 _ r1 r2 a1 a2),
      omega (arith, length-append r0 (r1 ++ r2), length-append r1 r2),
      record {
        first = served-widen r0 (r1 ++ r2) (e ∷ []) i.src0 _ (inl s0);
        second =
            served-widen r0 (r1 ++ r2) (e ∷ []) i.src1 _
              (inr (served-widen r1 r2 (e ∷ []) i.src1 _ (inl s1)));
        args =
            AreServed-widen r0 (r1 ++ r2) (e ∷ []) (args_of i.op) _
              (inr (AreServed-widen r1 r2 (e ∷ []) (args_of i.op) _ (inr s2)));
        op_eq = same;
        dst_eq = refl;
      },
    )

-- The registers of the entries are below `n`, and the reloads of the first entry are not.
record IsApart (n : ℕ) (rs ss : List Reload) (es : List SpillEntry) : Type 0 where
  above : All (λ r. n ≤ r.ptr) rs
  below : All (λ e. e.vreg_id < n) es
  known : All (λ s. Any (λ e. s.entry ≡ e) es) ss

pub fresh_reload :
    (n p : ℕ) (type : IrType) (e : SpillEntry)
    → n ≤ p
    → e.vreg_id < n
    → is_vreg e.vreg_id (vreg (p + 1) type) ≡ false
fresh_reload n p type e le lt = ground arith

pub All-Any :
    {A : Type 0} (P : A → Type 0) (xs : List A)
    → All P xs
    → (Q : A → Type 0) → Any Q xs
    → (x : A) × P x × Q x
All-Any P [] a Q h = absurd h
All-Any P (x ∷ xs) a Q (inl h) = (x, a.0, h)
All-Any P (x ∷ xs) a Q (inr h) = All-Any P xs a.1 Q h

-- A reload stays as it is when the later entries are looked at.
served-join :
    (n : ℕ) (rs ss : List Reload) (e : SpillEntry) (es : List SpillEntry) (old mid new : Value)
    → IsApart n rs ss es
    → IsServed rs (e ∷ []) old mid
    → IsServed ss es mid new
    → IsServed (rs ++ ss) (e ∷ es) old new
served-join n rs ss e es old mid new z (inl (same, none_here)) (inl (same', none_later)) = inl (
  same' ∙ same,
  (none_here.0, subst (λ t. All (λ f. is_vreg f.vreg_id t ≡ false) es) same none_later),
)
served-join n rs ss e es old mid new z (inl (same, none_here)) (inr hit) = inr (
    Any-append _ rs ss (
      inr (
        subst
          (λ t.
            Any (λ r. (is_vreg r.entry.vreg_id t ≡ true) × (new ≡ vreg (r.ptr + 1) r.entry.vtype))
              ss)
          same hit)))
served-join n rs ss e es old mid new z (inr hit) (inl (same', none_later)) = inr (
    Any-append _ rs ss (
      inl (
        subst
          (λ t.
            Any (λ r. (is_vreg r.entry.vreg_id old ≡ true) × (t ≡ vreg (r.ptr + 1) r.entry.vtype))
              rs)
          (sym same') hit)))
served-join n rs ss e es old mid new z (inr hit) (inr later) =
    let (r, above, (_, got)) = All-Any _ rs z.above _ hit in
    let (s, from, (again, _)) = All-Any _ ss z.known _ later in
    let (f, low, which) = All-Any _ es z.below _ from in
    let missed = fresh_reload n r.ptr r.entry.vtype f above low in
    let found : is_vreg f.vreg_id (vreg (r.ptr + 1) r.entry.vtype) ≡ true =
      sym (ap (λ t. is_vreg t.vreg_id mid) which ∙ ap (is_vreg f.vreg_id) got) ∙ again in
    absurd cc

AreServed-join :
    (n : ℕ) (rs ss : List Reload) (e : SpillEntry) (es : List SpillEntry)
    (olds mids news : List Value)
    → IsApart n rs ss es
    → AreServed rs (e ∷ []) olds mids
    → AreServed ss es mids news
    → AreServed (rs ++ ss) (e ∷ es) olds news
AreServed-join n rs ss e es [] [] [] z a b = tt
AreServed-join n rs ss e es [] [] (x ∷ xs) z a b = b
AreServed-join n rs ss e es [] (m ∷ ms) news z a b = absurd a
AreServed-join n rs ss e es (o ∷ os) [] news z a b = absurd a
AreServed-join n rs ss e es (o ∷ os) (m ∷ ms) [] z a b = b
AreServed-join n rs ss e es (o ∷ os) (m ∷ ms) (x ∷ xs) z a b =
    (served-join n rs ss e es o m x z a.0 b.0, AreServed-join n rs ss e es os ms xs z a.1 b.1)

length-AreServed :
    (rs : List Reload) (es : List SpillEntry) (olds news : List Value)
    → AreServed rs es olds news
    → length news ≡ length olds
length-AreServed rs es [] [] h = refl
length-AreServed rs es [] (x ∷ xs) h = absurd h
length-AreServed rs es (o ∷ os) [] h = absurd h
length-AreServed rs es (o ∷ os) (x ∷ xs) h = ap suc (length-AreServed rs es os xs h.1)

with_args-twice : (op : Op) (xs ys : List Value) → with_args (with_args op xs) ys ≡ with_args op ys
with_args-twice (Op.call callee args is_void_call) xs ys = refl
with_args-twice op xs ys = refl

with_args-args_of : (op : Op) → op ≡ with_args op (args_of op)
with_args-args_of (Op.call callee args is_void_call) = refl
with_args-args_of op = refl

AreServed-none : (xs : List Value) → AreServed [] [] xs xs
AreServed-none [] = tt
AreServed-none (x ∷ xs) = (inl (refl, tt), AreServed-none xs)

-- The fresh registers that `k` operands can take, over `m` entries.
abbrev pub budget : ℕ → ℕ → ℕ
budget zero k = 0
budget (suc m) k = 2 * k + budget m k

-- The USE pass emits reloads, each of an entry and into fresh registers, and then every operand that
-- was the register of an entry is the reload of it, and all others are as they were.
pub use_pass-IsRewritten :
    (n : ℕ) (es : List SpillEntry) (st : Emit) (i : Instr)
    → n ≤ counter st
    → All (λ e. e.vreg_id < n) es
    → counter st + budget (length es) (2 + length (args_of i.op)) < 2 ^ 32
    → (rs : List Reload) × IsEmitted es st rs (use_pass es st i).1
      × (2 * length rs ≤ budget (length es) (2 + length (args_of i.op)))
      × IsRewritten rs es i (use_pass es st i).0
unfolding use_pass
use_pass-IsRewritten n [] st i le low room = (
  [],
  emits-none [] st,
  omega arith,
  record {
    first = inl (refl, tt);
    second = inl (refl, tt);
    args = AreServed-none (args_of i.op);
    op_eq = with_args-args_of i.op;
    dst_eq = refl;
  },
)
use_pass-IsRewritten n (e ∷ es) st i le low room =
    let (rs, a, la, ra) = use_entry-IsRewritten e st i (omega arith) in
    let i' = (use_entry e st i).0 in
    let mid = (use_entry e st i).1 in
    let same : length (args_of i'.op) ≡ length (args_of i.op) =
      length-AreServed rs (e ∷ []) _ _ ra.args in
    let rest : budget (length es) (2 + length (args_of i'.op))
        ≡ budget (length es) (2 + length (args_of i.op)) =
      ap (λ k. budget (length es) (2 + k)) same in
    let (ss, b, lb, rb) =
      use_pass-IsRewritten n es mid i' (omega (arith, a.moved)) low.1
        (omega (arith, a.moved, rest)) in
    let last = (use_pass es mid i').0 in
    let z : IsApart n rs ss es = record {
      above = IsNumbered-above n (counter st) rs le a.numbered;
      below = low.1;
      known = b.known;
    } in
    (
      rs ++ ss,
      emits-join st mid _ rs ss (emits-widen (e ∷ []) (e ∷ es) st mid rs (one_of e es) a)
          (emits-widen es (e ∷ es) mid _ ss (λ f h. inr h) b),
      omega (arith, length-append rs ss, rest),
      record {
        first = served-join n rs ss e es i.src0 _ _ z ra.first rb.first;
        second = served-join n rs ss e es i.src1 _ _ z ra.second rb.second;
        args = AreServed-join n rs ss e es (args_of i.op) _ _ z ra.args rb.args;
        op_eq =
            rb.op_eq
            ∙ ap (λ o. with_args o (args_of last.op)) ra.op_eq
            ∙ with_args-twice i.op _ (args_of last.op);
        dst_eq = rb.dst_eq ∙ ra.dst_eq;
      },
    )
  where
    one_of :
        (e : SpillEntry) (es : List SpillEntry) (f : SpillEntry)
        → Any (λ g. f ≡ g) (e ∷ [])
        → Any (λ g. f ≡ g) (e ∷ es)
    one_of e es f (inl h) = inl h
    one_of e es f (inr h) = absurd h
