-- ===== src/Liveness/Compute/Paths.antt =====
-- Liveness by the paths of a function, without its sets.
use compilador.Prelude.{
  ℕ, ◌<◌, ◌≡◌, true, false, List, Option, none, some, get_or, All, ◌≤◌, ◌+◌, ◌^◌, elem,
}
use compilador.Ir.Instr.{Block, Function}
use compilador.Liveness.Block.Summary.{used_first, defined, AreBelow}
use compilador.Liveness.Cfg.Edges.{succs_of, AreSuccsBelow}

-- A path leads from the start of the block to a use of the register, and no instruction on the way
-- defines it.
pub data IsLivePath (by_id : List (Option Block)) (v : ℕ) : ℕ → Type 0 where
  used :
      {id : ℕ} (b : Block)
      → get_or by_id id none ≡ some b
      → used_first b.instrs v ≡ true
      → IsLivePath by_id v id
  through :
      {id : ℕ} (to : ℕ) (b : Block)
      → get_or by_id id none ≡ some b
      → defined b.instrs v ≡ false
      → elem to (succs_of (some b)) ≡ true
      → IsLivePath by_id v to
      → IsLivePath by_id v id

-- A path of edges leads from the entry to the block.
pub data IsReachable (by_id : List (Option Block)) (entry : ℕ) : ℕ → Type 0 where
  start : IsReachable by_id entry entry
  step :
      {id : ℕ} (to : ℕ)
      → IsReachable by_id entry id
      → elem to (succs_of (get_or by_id id none)) ≡ true
      → IsReachable by_id entry to

-- Block ids and jump targets are below `next_block_id`, registers below `next_vreg`, and the sets of
-- that many registers fit.
pub record IsWellFormed (func : Function) : Type 0 where
  pub room : func.next_vreg + 129 ≤ 2 ^ 32
  pub ids : All (λ b. b.id < func.next_block_id) func.blocks
  pub targets : All (λ b. AreSuccsBelow func.next_block_id (some b)) func.blocks
  pub registers : All (λ b. AreBelow func.next_vreg b.instrs) func.blocks
