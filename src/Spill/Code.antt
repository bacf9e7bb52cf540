-- ===== src/Spill/Code.antt =====
-- The code that takes the place of an instruction, of a list of them and of the blocks.
use mathlib.Core.List.{append_assoc, append-nil}
use compilador.Prelude.{
  ℕ, ◌+◌, ◌*◌, ◌^◌, ◌≤◌, ◌<◌, ◌≡◌, refl, ◌∙◌, ap, sym, subst, ◌⊎◌, inl, inr, true, false, List, [],
  ◌∷◌, ◌++◌, arith, All, length, Bool-cases,
}
use compilador.Ir.Types.{Value, is_vreg}
use compilador.Ir.Instr.{Instr, Block, Function}
use compilador.Ir.Build.{new_vreg}
use compilador.Spill.Entries.{SpillEntry, args_of}
use compilador.Spill.Emit.{Emit, list_push, emit_store_spill, addr_instr, store_instr}
use compilador.Spill.Rewrite.{use_pass, def_pass, rewrite_instr, rewrite_instrs, rewrite_blocks}
use compilador.Spill.Reloads.{Reload, reload_code, Any, IsNumbered, counter}
use compilador.Spill.Uses.{IsRewritten, budget, use_pass-IsRewritten}

-- A store to the slot of the entry whose register is defined, through the address in `p`; nothing
-- where no register of the entries is.
abbrev pub IsStored : List SpillEntry → ℕ → Value → List Instr → Type 0
IsStored es p dst after =
    ((after ≡ []) × All (λ e. is_vreg e.vreg_id dst ≡ false) es)
    ⊎ Any
        (λ e.
          (is_vreg e.vreg_id dst ≡ true)
          × (after ≡ addr_instr p e.slot_id e.vtype ∷ store_instr p e.vreg_id e.vtype ∷ []))
        es

-- The code of one instruction, which takes the fresh registers from `k` to `next`: reloads, the
-- instruction on the reloaded operands, and the store.
pub record IsInstrCode (es : List SpillEntry) (k : ℕ) (i : Instr) (code : List Instr) (next : ℕ)
    : Type 0 where
  pub reloads : List Reload
  pub kept : Instr
  pub after : List Instr
  pub shape : code ≡ reload_code reloads ++ kept ∷ after
  pub numbered : IsNumbered k reloads
  pub known : All (λ r. Any (λ e. r.entry ≡ e) es) reloads
  pub operands : IsRewritten reloads es i kept
  pub stored : IsStored es (k + 2 * length reloads) i.dst after
  pub taken : k + 2 * length reloads ≤ next
  pub bounded : next ≤ k + budget (length es) (2 + length (args_of i.op)) + 1

stored_out :
    (st : Emit) (e : SpillEntry)
    → (emit_store_spill st e.slot_id e.vreg_id e.vtype).out
      ≡ st.out
        ++ addr_instr (counter st) e.slot_id e.vtype
          ∷ store_instr (counter st) e.vreg_id e.vtype
          ∷ []
unfolding emit_store_spill list_push new_vreg
stored_out st e = append_assoc st.out _ _

stored_counter :
    (st : Emit) (e : SpillEntry)
    → counter st + 1 < 2 ^ 32
    → counter (emit_store_spill st e.slot_id e.vreg_id e.vtype) ≡ counter st + 1
unfolding emit_store_spill list_push new_vreg
stored_counter st e room = ground arith

def_pass-IsStored :
    (es : List SpillEntry) (st : Emit) (dst : Value)
    → counter st + 1 < 2 ^ 32
    → (after : List Instr) × ((def_pass es st dst).out ≡ st.out ++ after)
      × (counter st ≤ counter (def_pass es st dst))
      × (counter (def_pass es st dst) ≤ counter st + 1)
      × IsStored es (counter st) dst after
unfolding def_pass
def_pass-IsStored [] st dst room =
    ([], sym (append-nil st.out), omega arith, omega arith, inl (refl, tt))
def_pass-IsStored (e ∷ es) st dst room = elim (Bool-cases (is_vreg e.vreg_id dst)) [
  | inl hit ↦ (
    addr_instr (counter st) e.slot_id e.vtype ∷ store_instr (counter st) e.vreg_id e.vtype ∷ [],
    rw hit (stored_out st e),
    rw hit (omega (arith, stored_counter st e room)),
    rw hit (omega (arith, stored_counter st e room)),
    inr (inl (hit, refl)),
  )
  | inr other ↦
      let (after, out, low, high, ok) = def_pass-IsStored es st dst room in
      (after, rw other out, rw other low, rw other high, widen e es st dst after other ok)
]
  where
    widen :
        (e : SpillEntry) (es : List SpillEntry) (st : Emit) (dst : Value) (after : List Instr)
        → is_vreg e.vreg_id dst ≡ false
        → IsStored es (counter st) dst after
        → IsStored (e ∷ es) (counter st) dst after
    widen e es st dst after other (inl (none_after, clear)) = inl (none_after, (other, clear))
    widen e es st dst after other (inr hit) = inr (inr hit)

rewrite_instr-IsInstrCode :
    (n : ℕ) (es : List SpillEntry) (st : Emit) (i : Instr)
    → n ≤ counter st
    → All (λ e. e.vreg_id < n) es
    → counter st + (budget (length es) (2 + length (args_of i.op)) + 1) < 2 ^ 32
    → (code : List Instr) × ((rewrite_instr es st i).out ≡ st.out ++ code)
      × IsInstrCode es (counter st) i code (counter (rewrite_instr es st i))
unfolding rewrite_instr list_push
rewrite_instr-IsInstrCode n es st i le low room =
    let (rs, em, few, ok) = use_pass-IsRewritten n es st i le low (omega arith) in
    let i' = (use_pass es st i).0 in
    let mid = (use_pass es st i).1 in
    let (after, out, least, most, stored) =
      def_pass-IsStored es (list_push mid i') i'.dst (omega (arith, em.moved)) in
    (
      reload_code rs ++ i' ∷ after,
      out
          ∙ ap (λ o. (o ++ i' ∷ []) ++ after) em.out
          ∙ append_assoc (st.out ++ reload_code rs) (i' ∷ []) after
          ∙ append_assoc st.out (reload_code rs) (i' ∷ after),
      record {
        reloads = rs;
        kept = i';
        after = after;
        shape = refl;
        numbered = em.numbered;
        known = em.known;
        operands = ok;
        stored =
            subst (λ p. IsStored es p i.dst after) em.moved
              (subst (λ d. IsStored es (counter mid) d after) ok.dst_eq stored);
        taken = omega (arith, em.moved);
        bounded = omega (arith, em.moved);
      },
    )

-- The code of the instructions in their order.
abbrev pub AreInstrCodes : List SpillEntry → ℕ → List Instr → List Instr → ℕ → Type 0
AreInstrCodes es k [] code next = (code ≡ []) × (next ≡ k)
AreInstrCodes es k (i ∷ is) code next =
    (own : List Instr) × (rest : List Instr) × (mid : ℕ) × (code ≡ own ++ rest)
    × IsInstrCode es k i own mid
    × AreInstrCodes es mid is rest next

-- Enough fresh registers for the instructions.
abbrev pub instrs_budget : ℕ → List Instr → ℕ
instrs_budget m [] = 0
instrs_budget m (i ∷ is) = budget m (2 + length (args_of i.op)) + 1 + instrs_budget m is

rewrite_instrs-AreInstrCodes :
    (n : ℕ) (es : List SpillEntry) (st : Emit) (is : List Instr)
    → n ≤ counter st
    → All (λ e. e.vreg_id < n) es
    → counter st + instrs_budget (length es) is < 2 ^ 32
    → (code : List Instr) × ((rewrite_instrs es st is).out ≡ st.out ++ code)
      × AreInstrCodes es (counter st) is code (counter (rewrite_instrs es st is))
      × (counter st ≤ counter (rewrite_instrs es st is))
      × (counter (rewrite_instrs es st is) ≤ counter st + instrs_budget (length es) is)
unfolding rewrite_instrs
rewrite_instrs-AreInstrCodes n es st [] le low room =
    ([], sym (append-nil st.out), (refl, refl), omega arith, omega arith)
rewrite_instrs-AreInstrCodes n es st (i ∷ is) le low room =
    let (own, out, one) = rewrite_instr-IsInstrCode n es st i le low (omega arith) in
    let mid = rewrite_instr es st i in
    let (rest, out', more, least, most) =
      rewrite_instrs-AreInstrCodes n es mid is (omega (arith, one.taken)) low
        (omega (arith, one.bounded)) in
    (
      own ++ rest,
      out' ∙ ap (λ o. o ++ rest) out ∙ append_assoc st.out own rest,
      (own, rest, counter mid, refl, one, more),
      omega (arith, one.taken),
      omega (arith, one.bounded),
    )

-- The blocks keep their ids and their order, and each holds the code of its instructions.
abbrev pub AreBlockCodes : List SpillEntry → ℕ → List Block → List Block → ℕ → Type 0
AreBlockCodes es k [] new next = (new ≡ []) × (next ≡ k)
AreBlockCodes es k (b ∷ bs) new next =
    (code : List Instr) × (rest : List Block) × (mid : ℕ) × (new
      ≡ record b { instrs = code } ∷ rest)
    × AreInstrCodes es k b.instrs code mid
    × AreBlockCodes es mid bs rest next

abbrev pub blocks_budget : ℕ → List Block → ℕ
blocks_budget m [] = 0
blocks_budget m (b ∷ bs) = instrs_budget m b.instrs + blocks_budget m bs

-- The rewriting of the blocks, with entries of registers below the counter and room for the fresh
-- ones: before each instruction come reloads into fresh registers, the instruction reads the
-- reloaded value wherever it read a register of an entry and is otherwise the same, and a store to
-- the slot follows exactly where it defines such a register.
pub rewrite_blocks-AreBlockCodes :
    (n : ℕ) (es : List SpillEntry) (func : Function) (bs : List Block)
    → n ≤ func.next_vreg
    → All (λ e. e.vreg_id < n) es
    → func.next_vreg + blocks_budget (length es) bs < 2 ^ 32
    → AreBlockCodes es func.next_vreg bs
        (rewrite_blocks es func bs).0
        (rewrite_blocks es func bs).1.next_vreg
unfolding rewrite_blocks
rewrite_blocks-AreBlockCodes n es func [] le low room = (refl, refl)
rewrite_blocks-AreBlockCodes n es func (b ∷ bs) le low room =
    let st : Emit = record { func = func; out = [] } in
    let (code, out, ok, least, most) =
      rewrite_instrs-AreInstrCodes n es st b.instrs le low (omega arith) in
    let mid = rewrite_instrs es st b.instrs in
    let rest = rewrite_blocks-AreBlockCodes n es mid.func bs (omega arith) low (omega arith) in
    (
      code,
      _,
      counter mid,
      ap (λ o. record b { instrs = o } ∷ (rewrite_blocks es mid.func bs).0) out,
      ok,
      rest,
    )
