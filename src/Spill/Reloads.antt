-- ===== src/Spill/Reloads.antt =====
-- The reloads that the USE pass emits, as a list.
use mathlib.Core.List.{append_assoc, append-nil}
use compilador.Prelude.{
  All-append, ℕ, suc, ◌+◌, ◌*◌, ◌%◌, ◌^◌, ◌≤◌, ◌<◌, ◌≡◌, refl, ◌∙◌, ap, sym, subst, ◌⊎◌, inl, inr,
  List, [], ◌∷◌, ◌++◌, arith, u32_mod, All, length,
}
use compilador.Ir.Types.{IrType}
use compilador.Ir.Instr.{Instr}
use compilador.Ir.Build.{new_vreg}
use compilador.Spill.Entries.{SpillEntry}
use compilador.Spill.Emit.{Emit, addr_instr, load_instr, list_push, emit_reload}

-- The value of the entry comes into `ptr + 1`, over the address in `ptr`.
pub record Reload : Type 0 where
  pub entry : SpillEntry
  pub ptr : ℕ

abbrev pub reload_code : List Reload → List Instr
reload_code [] = []
reload_code (r ∷ rs) =
    addr_instr r.ptr r.entry.slot_id r.entry.vtype
    ∷ load_instr (r.ptr + 1) r.ptr r.entry.vtype
    ∷ reload_code rs

abbrev pub Any : {A : Type 0} → (A → Type 0) → List A → Type 0
Any P [] = ⊥
Any P (x ∷ xs) = P x ⊎ Any P xs

-- The addresses and values go to fresh registers, two by two from `next` on.
abbrev pub IsNumbered : ℕ → List Reload → Type 0
IsNumbered next [] = Unit
IsNumbered next (r ∷ rs) = (r.ptr ≡ next) × IsNumbered (next + 2) rs

abbrev pub counter : Emit → ℕ
counter st = st.func.next_vreg

-- Between the two states the reloads were emitted, of entries among `es`, and nothing else.
pub record IsEmitted (es : List SpillEntry) (st : Emit) (rs : List Reload) (next : Emit)
    : Type 0 where
  pub out : next.out ≡ st.out ++ reload_code rs
  pub moved : counter next ≡ counter st + 2 * length rs
  pub numbered : IsNumbered (counter st) rs
  pub known : All (λ r. Any (λ e. r.entry ≡ e) es) rs

Any-append_left : {A : Type 0} (P : A → Type 0) (xs ys : List A) → Any P xs → Any P (xs ++ ys)
Any-append_left P [] ys h = absurd h
Any-append_left P (x ∷ xs) ys (inl h) = inl h
Any-append_left P (x ∷ xs) ys (inr h) = inr (Any-append_left P xs ys h)

Any-append_right : {A : Type 0} (P : A → Type 0) (xs ys : List A) → Any P ys → Any P (xs ++ ys)
Any-append_right P [] ys h = h
Any-append_right P (x ∷ xs) ys h = inr (Any-append_right P xs ys h)

pub Any-append :
    {A : Type 0} (P : A → Type 0) (xs ys : List A) → Any P xs ⊎ Any P ys → Any P (xs ++ ys)
Any-append P xs ys (inl h) = Any-append_left P xs ys h
Any-append P xs ys (inr h) = Any-append_right P xs ys h

pub All-weaken :
    {A : Type 0} (P Q : A → Type 0) (xs : List A) → ((x : A) → P x → Q x) → All P xs → All Q xs
All-weaken P Q [] h a = tt
All-weaken P Q (x ∷ xs) h a = (h x a.0, All-weaken P Q xs h a.1)

reload_code-append :
    (rs ss : List Reload) → reload_code (rs ++ ss) ≡ reload_code rs ++ reload_code ss
reload_code-append [] ss = refl
reload_code-append (r ∷ rs) ss =
    ap
      (λ c.
        addr_instr r.ptr r.entry.slot_id r.entry.vtype
        ∷ load_instr (r.ptr + 1) r.ptr r.entry.vtype
        ∷ c)
      (reload_code-append rs ss)

pub length-append : {A : Type 0} (xs ys : List A) → length (xs ++ ys) ≡ length xs + length ys
length-append [] ys = omega arith
length-append (x ∷ xs) ys = omega (arith, length-append xs ys)

IsNumbered-append :
    (next : ℕ) (rs ss : List Reload)
    → IsNumbered next rs
    → IsNumbered (next + 2 * length rs) ss
    → IsNumbered next (rs ++ ss)
IsNumbered-append next [] ss a b =
    let e : next + 2 * 0 ≡ next = omega arith in subst (λ k. IsNumbered k ss) e b
IsNumbered-append next (r ∷ rs) ss a b =
    let e : next + 2 * suc (length rs) ≡ next + 2 + 2 * length rs = omega arith in
    (a.0, IsNumbered-append (next + 2) rs ss a.1 (subst (λ k. IsNumbered k ss) e b))

pub emits-none : (es : List SpillEntry) (st : Emit) → IsEmitted es st [] st
emits-none es st = record {
  out = sym (append-nil st.out);
  moved = omega arith;
  numbered = tt;
  known = tt;
}

pub emits-join :
    {es : List SpillEntry} (st mid end : Emit) (rs ss : List Reload)
    → IsEmitted es st rs mid
    → IsEmitted es mid ss end
    → IsEmitted es st (rs ++ ss) end
emits-join st mid end rs ss a b = record {
  out =
      b.out
      ∙ ap (λ o. o ++ reload_code ss) a.out
      ∙ append_assoc st.out (reload_code rs) (reload_code ss)
      ∙ ap (λ c. st.out ++ c) (sym (reload_code-append rs ss));
  moved = omega (arith, a.moved, b.moved, length-append rs ss);
  numbered =
      IsNumbered-append (counter st) rs ss a.numbered
        (subst (λ k. IsNumbered k ss) a.moved b.numbered);
  known = All-append _ rs ss a.known b.known;
}

-- More entries to come from.
pub emits-widen :
    (es fs : List SpillEntry) (st next : Emit) (rs : List Reload)
    → ((e : SpillEntry) → Any (λ f. e ≡ f) es → Any (λ f. e ≡ f) fs)
    → IsEmitted es st rs next
    → IsEmitted fs st rs next
emits-widen es fs st next rs h a = record {
  out = a.out;
  moved = a.moved;
  numbered = a.numbered;
  known =
      All-weaken (λ r. Any (λ e. r.entry ≡ e) es) (λ r. Any (λ e. r.entry ≡ e) fs) rs
        (λ r. h r.entry) a.known;
}

pub emit_reload-eq :
    (st : Emit) (slot_id : ℕ) (vtype : IrType)
    → counter st + 2 < 2 ^ 32
    → emit_reload st slot_id vtype ≡ (
      counter st + 1,
      record {
        func = record st.func { next_vreg = counter st + 2 };
        out =
            st.out
            ++ addr_instr (counter st) slot_id vtype
              ∷ load_instr (counter st + 1) (counter st) vtype
              ∷ [];
      },
    )
unfolding emit_reload list_push new_vreg
emit_reload-eq st slot_id vtype room =
    let one : (counter st + 1) % u32_mod ≡ counter st + 1 = ground arith in
    let two : (counter st + 1 + 1) % u32_mod ≡ counter st + 2 = ground arith in
    rw (one, two, append_assoc) refl

pub IsNumbered-above :
    (n next : ℕ) (rs : List Reload) → n ≤ next → IsNumbered next rs → All (λ r. n ≤ r.ptr) rs
IsNumbered-above n next [] le h = tt
IsNumbered-above n next (r ∷ rs) le h =
    (omega (arith, h.0), IsNumbered-above n (next + 2) rs (omega arith) h.1)
