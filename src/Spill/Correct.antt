-- ===== src/Spill/Correct.antt =====
-- `spill_rewrite` as a whole.
use mathlib.Core.List.{Permᴰ}
use mathlib.Core.List.Permᴰ.{nil, cons, swap, trans}
use compilador.Prelude.{
  ℕ, zero, suc, ◌+◌, ◌^◌, ◌≤◌, ◌<◌, ◌≡◌, refl, ◌∙◌, ap, sym, subst, ◌↔◌, inl, inr, Bool, true,
  false, List, some, arith, ◌==◌, All, length, get_or, Bool-cases, if◌then◌else◌, Returns,
}
use compilador.Ir.Instr.{Function}
use compilador.Ir.Build.{new_slot}
use compilador.Interference.Matrix.{Ifg}
use compilador.Regalloc.Build.{Regalloc}
use compilador.Regalloc.Select.{spill_color}
use compilador.Spill.Entries.{SpillEntry, new_entry, collect}
use compilador.Spill.Rewrite.{rewrite_blocks, spill_all, spill_rewrite}
use compilador.Spill.Reloads.{Any, All-weaken}
use compilador.Spill.Uses.{All-Any}
use compilador.Spill.Code.{AreBlockCodes, blocks_budget, rewrite_blocks-AreBlockCodes}

Any-perm : {A : Type 0} (P : A → Type 0) {xs ys : List A} → Permᴰ xs ys → Any P xs → Any P ys
Any-perm P nil h = h
Any-perm P (cons e p) (inl h) = inl (subst P e h)
Any-perm P (cons e p) (inr h) = inr (Any-perm P p h)
Any-perm P (swap e e') (inl h) = inr (inl (subst P e h))
Any-perm P (swap e e') (inr (inl h)) = inl (subst P e' h)
Any-perm P (swap e e') (inr (inr h)) = inr (inr h)
Any-perm P (trans p q) h = Any-perm P q (Any-perm P p h)

All-perm : {A : Type 0} (P : A → Type 0) {xs ys : List A} → Permᴰ xs ys → All P xs → All P ys
All-perm P nil a = a
All-perm P (cons e p) a = (subst P e a.0, All-perm P p a.1)
All-perm P (swap e e') a = (subst P e' a.1.0, (subst P e a.0, a.1.1))
All-perm P (trans p q) a = All-perm P q (All-perm P p a)

length-perm : {A : Type 0} {xs ys : List A} → Permᴰ xs ys → length xs ≡ length ys
length-perm nil = refl
length-perm (cons e p) = ap suc (length-perm p)
length-perm (swap e e') = refl
length-perm (trans p q) = length-perm p ∙ length-perm q

abbrev pub is_spilled : Regalloc → ℕ → Bool
is_spilled ra v = get_or ra.color v 0 == spill_color

-- How many of the registers from `v` on are spilled.
abbrev pub spills_from : Regalloc → ℕ → ℕ → ℕ
spills_from ra v zero = 0
spills_from ra v (suc left) =
    let rest = spills_from ra (v + 1) left in if is_spilled ra v then suc rest else rest

-- The entries are those of the spilled registers from `v` on; only slots change.
record IsCollected (ra : Regalloc) (v left : ℕ) (func : Function) (found : List SpillEntry)
    (next : Function) : Type 0 where
  blocks : next.blocks ≡ func.blocks
  vregs : next.next_vreg ≡ func.next_vreg
  below : All (λ e. e.vreg_id < v + left) found
  spilled : All (λ e. is_spilled ra e.vreg_id ≡ true) found
  every : (x : ℕ) → v ≤ x → x < v + left → is_spilled ra x ≡ true → Any (λ e. e.vreg_id ≡ x) found
  count : length found ≡ spills_from ra v left

collect-IsCollected :
    (decimal : ℕ → List ℕ) (func : Function) (ra : Regalloc) (g : Ifg) (v left : ℕ)
    → IsCollected ra v left func
        (collect decimal func ra g v left).0
        (collect decimal func ra g v left).1
unfolding collect new_entry new_slot
collect-IsCollected decimal func ra g v zero = record {
  blocks = refl;
  vregs = refl;
  below = tt;
  spilled = tt;
  every = λ x le lt s. absurd (omega arith);
  count = refl;
}
collect-IsCollected decimal func ra g v (suc left) = elim (Bool-cases (is_spilled ra v)) [
  | inl hit ↦
      let next = (new_entry decimal func g v).1 in
      let rest = collect-IsCollected decimal next ra g (v + 1) left in
      record {
        blocks = rw hit rest.blocks;
        vregs = rw hit rest.vregs;
        below = rw hit (omega arith, All-weaken _ _ _ (λ e lt. omega arith) rest.below);
        spilled = rw hit (hit, rest.spilled);
        every = λ x le lt s. rw hit (elim (Bool-cases (v == x)) [
          | inl here ↦ inl (ground arith)
          | inr later ↦ inr (rest.every x (ground arith) (omega arith) s)
        ]);
        count = rw hit (ap suc rest.count);
      }
  | inr other ↦
      let rest = collect-IsCollected decimal func ra g (v + 1) left in
      record {
        blocks = rw other rest.blocks;
        vregs = rw other rest.vregs;
        below = rw other (All-weaken _ _ _ (λ e lt. omega arith) rest.below);
        spilled = rw other rest.spilled;
        every = λ x le lt s. rw other (
            rest.every x
              (elim (Bool-cases (v == x)) [
                | inl here ↦
                    let e : v ≡ x = ground arith in let clash = ap (is_spilled ra) e in absurd cc
                | inr later ↦ ground arith
              ])
              (omega arith) s);
        count = rw other rest.count;
      }
]

-- What the parameters must give: `qsort` permutes, and registers and their fresh ones fit.
pub record IsSpillable (sort : List SpillEntry → List SpillEntry) (func : Function) (ra : Regalloc)
    : Type 0 where
  pub permutes : (xs : List SpillEntry) → Permᴰ xs (sort xs)
  pub some_spill : (ra.n_spills == 0) ≡ false
  pub counted : spills_from ra 0 ra.n_vregs ≡ ra.n_spills
  pub known : ra.n_vregs ≤ func.next_vreg
  pub room : func.next_vreg + blocks_budget ra.n_spills func.blocks < 2 ^ 32

-- With as many spilled registers as `n_spills` and room for the fresh ones, `spill_rewrite` succeeds:
-- the entries are those of the spilled registers, and the blocks are rewritten by them.
pub spill_rewrite-Returns :
    (decimal : ℕ → List ℕ) (sort : List SpillEntry → List SpillEntry) (func : Function)
    (ra : Regalloc) (g : Ifg)
    → IsSpillable sort func ra
    → Returns (spill_rewrite decimal sort func ra g) λ r.
      (entries : List SpillEntry) × (r.0 ≡ some entries)
      × ((v : ℕ) → v < ra.n_vregs → (is_spilled ra v ≡ true) ↔ Any (λ e. e.vreg_id ≡ v) entries)
      × AreBlockCodes entries func.next_vreg func.blocks r.1.blocks r.1.next_vreg
unfolding spill_rewrite spill_all
spill_rewrite-Returns decimal sort func ra g z =
    let found = (collect decimal func ra g 0 ra.n_vregs).0 in
    let c = collect-IsCollected decimal func ra g 0 ra.n_vregs in
    let entries = sort found in
    let p = z.permutes found in
    let many : length entries ≡ ra.n_spills = sym (length-perm p) ∙ c.count ∙ z.counted in
    let full : (length entries == ra.n_spills) ≡ true = ground arith in
    let with_slots = (collect decimal func ra g 0 ra.n_vregs).1 in
    let low : All (λ e. e.vreg_id < func.next_vreg) entries =
      All-perm _ p (All-weaken _ _ found (λ e lt. omega (arith, z.known)) c.below) in
    let room : with_slots.next_vreg + blocks_budget (length entries) func.blocks < 2 ^ 32 =
      subst (λ k. k + blocks_budget (length entries) func.blocks < 2 ^ 32) (sym c.vregs)
        (subst (λ m. func.next_vreg + blocks_budget m func.blocks < 2 ^ 32) (sym many) z.room) in
    let codes =
      rewrite_blocks-AreBlockCodes func.next_vreg entries with_slots func.blocks
        (omega (arith, c.vregs)) low room in
    (
      (some entries, (spill_all decimal sort func ra g).1),
      rw (z.some_spill, full) refl,
      (
        entries,
        refl,
        λ v lt. (
          λ s. Any-perm _ p (c.every v (omega arith) (omega arith) s),
          λ h.
              let (e, own, same) = All-Any _ entries (All-perm _ p c.spilled) _ h in
              sym (ap (is_spilled ra) same) ∙ own,
        ),
        subst
            (λ k.
              AreBlockCodes entries k func.blocks (rewrite_blocks entries with_slots func.blocks).0
                (rewrite_blocks entries with_slots func.blocks).1.next_vreg)
            c.vregs codes,
      ),
    )
