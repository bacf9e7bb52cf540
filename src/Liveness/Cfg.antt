-- ===== src/Liveness/Cfg.antt =====
-- Steps 1 to 3 of `ir_liveness_compute`: the blocks by id, the control-flow graph, and the
-- depth-first search. The arrays have one place for each of the `nb` block ids; a write past them is
-- dropped, and an id past them counts as visited.
pub mod Edges
pub mod Search
use compilador.Prelude.{
  ℕ, zero, suc, ◌+◌, Bool, true, false, List, [], ◌∷◌, ◌++◌, Option, none, some, if◌then◌else◌,
  get_or, set, replicate,
}
use mathlib.Core.List.{reverse}
use compilador.Ir.Instr.{Block}
use compilador.Liveness.Instr.{block_get_succs}

-- `n_succs` and `n_preds` are the lengths.
pub record CfgNode : Type 0 where
  pub succ_ids : List ℕ
  pub pred_ids : List ℕ

abbrev pub no_node : CfgNode
no_node = record { succ_ids = []; pred_ids = [] }

-- `IR_MAX_SWITCH_CASES + 2`
abbrev pub max_succs : ℕ
max_succs = 66

-- `bmap.by_id[b->id] = b`
unfoldable pub fill_map : List (Option Block) → List Block → List (Option Block)
fill_map by_id [] = by_id
fill_map by_id (b ∷ bs) = fill_map (set by_id b.id (some b)) bs

unfoldable pub block_map : ℕ → List Block → List (Option Block)
unfolding fill_map
block_map nb blocks = fill_map (replicate nb none) blocks

-- `cfg[sid].pred_ids[cfg[sid].n_preds++] = id`
pub add_pred : ℕ → List CfgNode → ℕ → List CfgNode
add_pred id cfg sid =
    let node = get_or cfg sid no_node in
    set cfg sid (record node { pred_ids = node.pred_ids ++ id ∷ [] })

pub add_preds : ℕ → List CfgNode → List ℕ → List CfgNode
add_preds id cfg [] = cfg
add_preds id cfg (sid ∷ sids) = add_preds id (add_pred id cfg sid) sids

-- The second pass, for one id.
pub link : List CfgNode → ℕ → Option Block → List CfgNode
link cfg id none = cfg
link cfg id (some b) =
    let succs = block_get_succs b max_succs in
    add_preds id (set cfg id (record (get_or cfg id no_node) { succ_ids = succs })) succs

pub link_all : List CfgNode → ℕ → List (Option Block) → List CfgNode
link_all cfg id [] = cfg
link_all cfg id (b ∷ bs) = link_all (link cfg id b) (id + 1) bs

unfoldable pub build_cfg : ℕ → List (Option Block) → List CfgNode
unfolding link_all link add_preds add_pred
build_cfg nb by_id = link_all (replicate nb no_node) 0 by_id

pub record Dfs : Type 0 where
  pub visited : List Bool
  pub post : List ℕ

abbrev pub succs_at : List CfgNode → ℕ → List ℕ
succs_at cfg id = (get_or cfg id no_node).succ_ids

abbrev pub preds_at : List CfgNode → ℕ → List ℕ
preds_at cfg id = (get_or cfg id no_node).pred_ids

pub visit_all : (ℕ → Dfs → Dfs) → List ℕ → Dfs → Dfs
visit_all go [] st = st
visit_all go (s ∷ ss) st = visit_all go ss (go s st)

-- Each nested call has marked one more block, so the depth is at most the number of blocks.
unfoldable pub dfs_postorder : ℕ → List CfgNode → ℕ → Dfs → Dfs
unfolding visit_all
dfs_postorder zero cfg id st = st
dfs_postorder (suc fuel) cfg id st =
    let inner =
      visit_all (dfs_postorder fuel cfg) (succs_at cfg id)
        (record st { visited = set st.visited id true }) in
    if get_or st.visited id true then st else record inner { post = inner.post ++ id ∷ [] }

-- From the entry, in reverse postorder.
unfoldable pub rpo_of : ℕ → List CfgNode → ℕ → List ℕ
unfolding dfs_postorder
rpo_of nb cfg entry =
    reverse (dfs_postorder nb cfg entry (record { visited = replicate nb false; post = [] })).post
