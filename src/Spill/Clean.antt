-- ===== src/Spill/Clean.antt =====
-- The reads of the registers of the entries in the code that comes out.
use compilador.Prelude.{
  All-append, ℕ, ◌+◌, ◌*◌, ◌^◌, ◌≤◌, ◌<◌, ◌≡◌, refl, ◌∙◌, ap, sym, subst, ◌⊎◌, inl, inr, Bool, true,
  false, ◌||◌, List, [], ◌∷◌, arith, All, length,
}
use compilador.Ir.Types.{Value, is_vreg}
use compilador.Ir.Instr.{Instr, Block, Function}
use compilador.Spill.Entries.{SpillEntry, args_of}
use compilador.Spill.Emit.{addr_instr, store_instr}
use compilador.Spill.Rewrite.{rewrite_blocks}
use compilador.Spill.Reloads.{Reload, reload_code, Any, All-weaken, IsNumbered-above}
use compilador.Spill.Operands.{IsServed, AreServed}
use compilador.Spill.Uses.{IsRewritten, fresh_reload, All-Any}
use compilador.Spill.Code.{
  IsStored, IsInstrCode, AreInstrCodes, AreBlockCodes, blocks_budget, rewrite_blocks-AreBlockCodes,
}

abbrev pub any_reads : List Value → ℕ → Bool
any_reads [] v = false
any_reads (arg ∷ args) v = is_vreg v arg || any_reads args v

abbrev pub reads : Instr → ℕ → Bool
reads i v = is_vreg v i.src0 || (is_vreg v i.src1 || any_reads (args_of i.op) v)

-- The instruction reads no register of the entries.
abbrev pub IsClean : List SpillEntry → Instr → Type 0
IsClean es i = All (λ e. reads i e.vreg_id ≡ false) es

-- It stores the register of an entry, through an address in a fresh register.
abbrev pub IsSpillStore : ℕ → List SpillEntry → Instr → Type 0
IsSpillStore n es i = Any (λ e. (p : ℕ) × (n ≤ p) × (i ≡ store_instr p e.vreg_id e.vtype)) es

abbrev pub IsFine : ℕ → List SpillEntry → Instr → Type 0
IsFine n es i = IsClean es i ⊎ IsSpillStore n es i

All-of : {A : Type 0} (P : A → Type 0) (xs : List A) → ((x : A) → P x) → All P xs
All-of P [] h = tt
All-of P (x ∷ xs) h = (h x, All-of P xs h)

All-zip :
    {A : Type 0} (P Q R : A → Type 0) (xs : List A)
    → ((x : A) → P x → Q x → R x)
    → All P xs
    → All Q xs
    → All R xs
All-zip P Q R [] h a b = tt
All-zip P Q R (x ∷ xs) h a b = (h x a.0 b.0, All-zip P Q R xs h a.1 b.1)

module _ (n : ℕ) (es : List SpillEntry) (low : All (λ e. e.vreg_id < n) es) where
  IsServed-clean :
      (rs : List Reload) (old new : Value)
      → All (λ r. n ≤ r.ptr) rs
      → IsServed rs es old new
      → All (λ e. is_vreg e.vreg_id new ≡ false) es
  IsServed-clean rs old new high (inl (same, clear)) =
      subst (λ t. All (λ e. is_vreg e.vreg_id t ≡ false) es) (sym same) clear
  IsServed-clean rs old new high (inr hit) =
      let (r, above, (_, got)) = All-Any _ rs high _ hit in
      All-weaken _ _ es
        (λ e lt. ap (is_vreg e.vreg_id) got ∙ fresh_reload n r.ptr r.entry.vtype e above lt) low

  AreServed-clean :
      (rs : List Reload) (olds news : List Value)
      → All (λ r. n ≤ r.ptr) rs
      → AreServed rs es olds news
      → All (λ e. any_reads news e.vreg_id ≡ false) es
  AreServed-clean rs [] [] high h = All-of _ es (λ e. refl)
  AreServed-clean rs [] (x ∷ xs) high h = absurd h
  AreServed-clean rs (o ∷ os) [] high h = absurd h
  AreServed-clean rs (o ∷ os) (x ∷ xs) high h =
      All-zip _ _ _ es (λ e a b. ground arith) (IsServed-clean rs o x high h.0)
        (AreServed-clean rs os xs high h.1)

  IsRewritten-IsClean :
      (rs : List Reload) (old new : Instr)
      → All (λ r. n ≤ r.ptr) rs
      → IsRewritten rs es old new
      → IsClean es new
  IsRewritten-IsClean rs old new high z =
      All-zip _ _ _ es (λ e a b. ground arith) (IsServed-clean rs old.src0 new.src0 high z.first)
        (All-zip _ _
          (λ e. (is_vreg e.vreg_id new.src1 || any_reads (args_of new.op) e.vreg_id) ≡ false) es
          (λ e a b. ground arith) (IsServed-clean rs old.src1 new.src1 high z.second)
          (AreServed-clean rs (args_of old.op) (args_of new.op) high z.args))

  reload_code-IsFine :
      (rs : List Reload) → All (λ r. n ≤ r.ptr) rs → All (IsFine n es) (reload_code rs)
  reload_code-IsFine [] high = tt
  reload_code-IsFine (r ∷ rs) high = (
    inl (All-of _ es (λ e. refl)),
    (inl (All-weaken _ _ es (λ e lt. ground (arith, high.0)) low), reload_code-IsFine rs high.1),
  )

  store_of_hit :
      (p : ℕ) (dst : Value) (after : List Instr) (fs : List SpillEntry)
      → n ≤ p
      → Any
          (λ e.
            (is_vreg e.vreg_id dst ≡ true)
            × (after ≡ addr_instr p e.slot_id e.vtype ∷ store_instr p e.vreg_id e.vtype ∷ []))
          fs
      → (addr : Instr) × (store : Instr) × (after ≡ addr ∷ store ∷ [])
        × IsClean es addr
        × IsSpillStore n fs store
  store_of_hit p dst after [] le hit = absurd hit
  store_of_hit p dst after (f ∷ fs) le (inl hit) =
      (_, _, hit.1, All-of _ es (λ e. refl), inl (p, le, refl))
  store_of_hit p dst after (f ∷ fs) le (inr later) =
      let (addr, store, shape, clean, is_store) = store_of_hit p dst after fs le later in
      (addr, store, shape, clean, inr is_store)

  IsStored-IsFine :
      (p : ℕ) (dst : Value) (after : List Instr)
      → n ≤ p
      → IsStored es p dst after
      → All (IsFine n es) after
  IsStored-IsFine p dst after le (inl (none_after, clear)) =
      subst (All (IsFine n es)) (sym none_after) tt
  IsStored-IsFine p dst after le (inr hit) =
      let (addr, store, shape, clean, is_store) = store_of_hit p dst after es le hit in
      subst (All (IsFine n es)) (sym shape) (inl clean, (inr is_store, tt))

  IsInstrCode-IsFine :
      (k : ℕ) (i : Instr) (code : List Instr) (next : ℕ)
      → n ≤ k
      → IsInstrCode es k i code next
      → All (IsFine n es) code
  IsInstrCode-IsFine k i code next le z =
      let high = IsNumbered-above n k z.reloads le z.numbered in
      subst (All (IsFine n es)) (sym z.shape) (
        All-append (IsFine n es) (reload_code z.reloads) (z.kept ∷ z.after)
          (reload_code-IsFine z.reloads high)
          (
            inl (IsRewritten-IsClean z.reloads i z.kept high z.operands),
            IsStored-IsFine (k + 2 * length z.reloads) i.dst z.after (omega arith) z.stored,
          ))

  AreInstrCodes-IsFine :
      (k : ℕ) (is code : List Instr) (next : ℕ)
      → n ≤ k
      → AreInstrCodes es k is code next
      → All (IsFine n es) code × (k ≤ next)
  AreInstrCodes-IsFine k [] code next le (shape, same) =
      (subst (All (IsFine n es)) (sym shape) tt, omega (arith, same))
  AreInstrCodes-IsFine k (i ∷ is) code next le (own, rest, mid, shape, z, more) =
      let (fine, up) = AreInstrCodes-IsFine mid is rest next (omega (arith, z.taken)) more in
      (
        subst (All (IsFine n es)) (sym shape)
            (All-append (IsFine n es) own rest (IsInstrCode-IsFine k i own mid le z) fine),
        omega (arith, z.taken),
      )

  AreBlockCodes-IsFine :
      (k : ℕ) (bs new : List Block) (next : ℕ)
      → n ≤ k
      → AreBlockCodes es k bs new next
      → All (λ b. All (IsFine n es) b.instrs) new
  AreBlockCodes-IsFine k [] new next le (shape, same) =
      subst (All (λ b. All (IsFine n es) b.instrs)) (sym shape) tt
  AreBlockCodes-IsFine k (b ∷ bs) new next le (code, rest, mid, shape, codes, more) =
      let (fine, up) = AreInstrCodes-IsFine k b.instrs code mid le codes in
      subst (All (λ b. All (IsFine n es) b.instrs)) (sym shape)
        (fine, AreBlockCodes-IsFine mid bs rest next (omega arith) more)

-- After the rewriting of the blocks, with entries of registers below `n`, which the counter has
-- reached, and room for the fresh registers: no instruction reads a register of an entry, but for the
-- stores of such registers to their slots, through addresses in registers from `n` on.
pub rewrite_blocks-IsFine :
    (n : ℕ) (es : List SpillEntry) (func : Function) (bs : List Block)
    → n ≤ func.next_vreg
    → All (λ e. e.vreg_id < n) es
    → func.next_vreg + blocks_budget (length es) bs < 2 ^ 32
    → All (λ b. All (IsFine n es) b.instrs) (rewrite_blocks es func bs).0
rewrite_blocks-IsFine n es func bs le low room =
    AreBlockCodes-IsFine n es low func.next_vreg bs (rewrite_blocks es func bs).0
      (rewrite_blocks es func bs).1.next_vreg le
      (rewrite_blocks-AreBlockCodes n es func bs le low room)
