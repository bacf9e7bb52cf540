-- ===== src/Liveness/Compute/Blocks.antt =====
-- The steps of `ir_liveness_compute` that go over the blocks: the map by id, `use` and `def`, and
-- `live_after`.
use compilador.Prelude.{
  ℕ, zero, suc, ◌≤◌, ◌<◌, ◌≡◌, refl, ◌∙◌, ap, List, [], ◌∷◌, ◌++◌, Option, none, some, arith,
  get_or, set, replicate, length, length-set, length-replicate, All, All-set, All-replicate,
  Returns,
}
use compilador.VregSet.{VregSet, init, has}
use compilador.VregSet.Laws.{IsSized, has-init}
use compilador.Ir.Instr.{Instr, Block}
use compilador.Liveness.Block.{UseDef}
use compilador.Liveness.Block.Summary.{
  AreBelow, AreLiveAfter, used_first, defined, block_use_def-Returns, block_live_after-Returns,
}
use compilador.Liveness.Cfg.{fill_map, block_map}
use compilador.Liveness.Dataflow.{no_use_def, set_at}
use compilador.Liveness.Dataflow.Equations.{AreSets}
use compilador.Liveness.Compute.{use_def_of, use_defs_of, live_afters}

abbrev pub code_of : Option Block → List Instr
code_of none = []
code_of (some b) = b.instrs

fill_map-All :
    (P : Option Block → Type 0) (by_id : List (Option Block)) (bs : List Block)
    → All P by_id
    → All (λ b. P (some b)) bs
    → All P (fill_map by_id bs)
unfolding fill_map
fill_map-All P by_id [] old new = old
fill_map-All P by_id (b ∷ bs) old new =
    fill_map-All P (set by_id b.id (some b)) bs (All-set P by_id b.id (some b) old new.0) new.1

-- What holds of the blocks and of a missing one holds of the places of the map.
pub block_map-All :
    (P : Option Block → Type 0) (nb : ℕ) (bs : List Block)
    → P none
    → All (λ b. P (some b)) bs
    → All P (block_map nb bs)
unfolding block_map
block_map-All P nb bs missing h =
    fill_map-All P (replicate nb none) bs (All-replicate P nb none missing) h

length-fill_map :
    (by_id : List (Option Block)) (bs : List Block) → length (fill_map by_id bs) ≡ length by_id
unfolding fill_map
length-fill_map by_id [] = refl
length-fill_map by_id (b ∷ bs) =
    length-fill_map (set by_id b.id (some b)) bs ∙ length-set by_id b.id (some b)

pub length-block_map : (nb : ℕ) (bs : List Block) → length (block_map nb bs) ≡ nb
unfolding block_map
length-block_map nb bs = length-fill_map (replicate nb none) bs ∙ length-replicate nb none

pub AreBelow-mono : (a c : ℕ) (is : List Instr) → a ≤ c → AreBelow a is → AreBelow c is
AreBelow-mono a c [] le h = tt
AreBelow-mono a c (i ∷ is) le (u, d, rest) =
    (λ v m. omega (arith, u v m), λ v m. omega (arith, d v m), AreBelow-mono a c is le rest)

pub All-mono {ℓ κ μ} :
    {A : Type ℓ} (P : A → Type κ) (Q : A → Type μ) (xs : List A)
    → ((x : A) → P x → Q x)
    → All P xs
    → All Q xs
All-mono P Q [] h a = tt
All-mono P Q (x ∷ xs) h a = (h x a.0, All-mono P Q xs h a.1)

-- The sets hold the registers of the block that are used before any definition, and the defined ones.
pub record IsSummary (c : ℕ) (b : Option Block) (ud : UseDef) : Type 0 where
  pub uses_sized : IsSized c ud.use_set
  pub defs_sized : IsSized c ud.def_set
  pub uses_eq : (v : ℕ) → has ud.use_set v ≡ used_first (code_of b) v
  pub defs_eq : (v : ℕ) → has ud.def_set v ≡ defined (code_of b) v

use_def_of-Returns :
    {c : ℕ} (ncap : ℕ) (b : Option Block)
    → IsSized c (init ncap)
    → AreBelow c (code_of b)
    → Returns (use_def_of ncap b) (IsSummary c b)
unfolding use_def_of
use_def_of-Returns ncap none z h = (
  _,
  refl,
  record {
    uses_sized = z;
    defs_sized = z;
    uses_eq = λ v. has-init ncap v;
    defs_eq = λ v. has-init ncap v;
  },
)
use_def_of-Returns ncap (some b) z h =
    let (ud, run, (zu, zd, mu, md)) =
      block_use_def-Returns (record { use_set = init ncap; def_set = init ncap }) b.instrs z z h in
    (
      ud,
      run,
      record {
        uses_sized = zu;
        defs_sized = zd;
        uses_eq = λ v. ground (arith, mu v, has-init ncap v);
        defs_eq = λ v. ground (arith, md v, has-init ncap v);
      },
    )

pub use_defs_of-Returns :
    {c : ℕ} (ncap : ℕ) (bs : List (Option Block))
    → IsSized c (init ncap)
    → All (λ b. AreBelow c (code_of b)) bs
    → Returns (use_defs_of ncap bs) λ uds.
      (length uds ≡ length bs)
      × ((i : ℕ) → i < length bs → IsSummary c (get_or bs i none) (get_or uds i no_use_def))
unfolding use_defs_of
use_defs_of-Returns ncap [] z h = ([], refl, (refl, λ i lt. absurd (omega arith)))
use_defs_of-Returns {c} ncap (b ∷ bs) z h =
    let (ud, run, own) = use_def_of-Returns ncap b z h.0 in
    let (uds, run', (len, others)) = use_defs_of-Returns ncap bs z h.1 in
    (ud ∷ uds, rw (run, run') refl, (ap suc len, at ud uds own others))
  where
    at :
        (ud : UseDef) (uds : List UseDef)
        → IsSummary c b ud
        → ((i : ℕ) → i < length bs → IsSummary c (get_or bs i none) (get_or uds i no_use_def))
        → (i : ℕ) → i < length (b ∷ bs)
        → IsSummary c (get_or (b ∷ bs) i none) (get_or (ud ∷ uds) i no_use_def)
    at ud uds own others zero lt = own
    at ud uds own others (suc i) lt = others i (omega arith)

-- The list joins the sets of the blocks in their order: in each block, the registers live after each
-- instruction, by those live at the exit of the block.
abbrev pub AreAfters : ℕ → List VregSet → List Block → List VregSet → Type 0
AreAfters c outs [] sets = sets ≡ []
AreAfters c outs (b ∷ bs) sets =
    (own : List VregSet) × (rest : List VregSet) × (sets ≡ own ++ rest)
    × AreLiveAfter c b.instrs (has (set_at outs b.id)) own
    × AreAfters c outs bs rest

pub live_afters-Returns :
    {c nb : ℕ} (ncap : ℕ) (outs : List VregSet) (bs : List Block)
    → IsSized c (init ncap)
    → AreSets c nb outs
    → All (λ b. b.id < nb) bs
    → All (λ b. AreBelow c b.instrs) bs
    → Returns (live_afters ncap outs bs) (AreAfters c outs bs)
unfolding live_afters
live_afters-Returns ncap outs [] z zs ids h = ([], refl, refl)
live_afters-Returns ncap outs (b ∷ bs) z zs ids h =
    let (own, run, own_ok) =
      block_live_after-Returns ncap b.instrs (set_at outs b.id) z (zs.sized b.id ids.0) h.0 in
    let (rest, run', rest_ok) = live_afters-Returns ncap outs bs z zs ids.1 h.1 in
    (own ++ rest, rw (run, run') refl, (own, rest, refl, own_ok, rest_ok))
