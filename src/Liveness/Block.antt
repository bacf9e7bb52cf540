-- ===== src/Liveness/Block.antt =====
-- Steps 5 and 7 of `ir_liveness_compute` for one block: `use` and `def`, and the backward pass that
-- fills `live_after`. A failed `assert` of a set operation is `none`.
pub mod Summary
use compilador.Prelude.{ℕ, List, [], ◌∷◌, Option, none, some, if◌then◌else◌, ◌>>=◌}
use compilador.VregSet.{VregSet, init, copy, add, remove, has}
use compilador.Ir.Instr.{Instr}
use compilador.Liveness.Instr.{instr_get_def, instr_get_uses}

-- `IR_MAX_ARGS + 4`, the room in `use_buf`
abbrev pub max_uses : ℕ
max_uses = 20

pub record UseDef : Type 0 where
  pub use_set : VregSet
  pub def_set : VregSet

-- The uses of one instruction: only those that are not yet in `def`.
pub add_uses : VregSet → VregSet → List ℕ → Option VregSet
add_uses def_set use_set [] = some use_set
add_uses def_set use_set (vr ∷ vrs) =
    (if has def_set vr then some use_set else add use_set vr) >>= λ u. add_uses def_set u vrs

pub add_def : VregSet → Option ℕ → Option VregSet
add_def s none = some s
add_def s (some vr) = add s vr

-- The body of the loop over the instructions.
pub use_def_step : UseDef → Instr → Option UseDef
unfolding add_uses add_def
use_def_step bl ins = do
  u ← add_uses bl.def_set bl.use_set (instr_get_uses ins max_uses)
  d ← add_def bl.def_set (instr_get_def ins)
  some (record { use_set = u; def_set = d })

unfoldable pub block_use_def : UseDef → List Instr → Option UseDef
unfolding use_def_step
block_use_def bl [] = some bl
block_use_def bl (ins ∷ rest) = use_def_step bl ins >>= λ b. block_use_def b rest

pub remove_def : VregSet → Option ℕ → Option VregSet
remove_def s none = some s
remove_def s (some vr) = remove s vr

pub add_all : VregSet → List ℕ → Option VregSet
add_all s [] = some s
add_all s (vr ∷ vrs) = add s vr >>= λ t. add_all t vrs

-- Backward over one instruction: take its definition out, put its uses in.
unfoldable pub transfer : VregSet → Instr → Option VregSet
unfolding remove_def add_all
transfer live_cur ins = do
  t ← remove_def live_cur (instr_get_def ins)
  add_all t (instr_get_uses ins max_uses)

-- The loop from the last instruction to the first: `live_after` of each, and `live_cur` at the end.
unfoldable pub backward : ℕ → List Instr → VregSet → Option (List VregSet × VregSet)
unfolding transfer
backward ncap [] live_cur = some ([], live_cur)
backward ncap (ins ∷ rest) live_cur = do
  (afters, cur) ← backward ncap rest live_cur
  la ← copy (init ncap) cur
  next ← transfer cur ins
  some (la ∷ afters, next)

unfoldable pub block_live_after : ℕ → List Instr → VregSet → Option (List VregSet)
unfolding backward
block_live_after ncap instrs live_out = do
  live_cur ← copy (init ncap) live_out
  (afters, _) ← backward ncap instrs live_cur
  some afters
