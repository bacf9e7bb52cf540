-- ===== src/Liveness/Compute/Correct.antt =====
-- The result of `ir_liveness_compute` against the paths of the function.
use compilador.Prelude.{
  ℕ, ◌+◌, ◌^◌, ◌≤◌, ◌<◌, ◌≡◌, refl, ◌∙◌, ap, sym, subst, true, false, List, [], ◌∷◌, Option, none,
  some, arith, ◌==◌, get_or, length, map, All, All-get_or, Returns, elem, ◌↔◌,
}
use compilador.VregSet.{VregSet, init, has}
use compilador.VregSet.Laws.{IsSized, init-IsSized}
use compilador.Ir.Instr.{Block, Function}
use compilador.Liveness.Block.{UseDef}
use compilador.Liveness.Block.Summary.{AreBelow, used_first, defined}
use compilador.Liveness.Result.{IrLiveness, instrs_of}
use compilador.Liveness.Cfg.{block_map, build_cfg, rpo_of, succs_at}
use compilador.Liveness.Cfg.Edges.{
  succs_of, AreSuccsBelow, AreEdges, build_cfg-AreEdges, succs-inside, preds-inside, preds-eq_succs,
}
use compilador.Liveness.Cfg.Search.{IsOrder, rpo_of-IsOrder}
use compilador.Liveness.Dataflow.{Flow, set_at, no_use_def}
use compilador.Liveness.Dataflow.Equations.{mem, IsEnv, any_live-elem, elem-any_live}
use compilador.Liveness.Dataflow.Progress.{IsSolved, IsClosed, is_present, is_some}
use compilador.Liveness.Dataflow.Solve.{solve-Returns}
use compilador.Liveness.Compute.{block_sets, capacity, env_of, compute_from, ir_liveness_compute}
use compilador.Liveness.Compute.Blocks.{
  code_of, block_map-All, length-block_map, AreBelow-mono, All-mono, IsSummary, use_defs_of-Returns,
  AreAfters, live_afters-Returns,
}
use compilador.Liveness.Compute.Paths.{
  IsLivePath, used, through, IsReachable, start, step, IsWellFormed,
}

-- The sets at the entries and at the exits, by block id.
abbrev pub live_ins : IrLiveness → List VregSet
live_ins liv = map (λ b. b.live_in) liv.blk

abbrev pub live_outs : IrLiveness → List VregSet
live_outs liv = map (λ b. b.live_out) liv.blk

-- A register is in a set of a reachable block exactly if a path from there leads to its use, and the
-- sets after the instructions follow from those at the exits.
pub record IsExact (c : ℕ) (func : Function) (entry : ℕ) (liv : IrLiveness) : Type 0 where
  pub at_entry :
      (id v : ℕ)
      → IsReachable (block_map func.next_block_id func.blocks) entry id
      → (has (set_at (live_ins liv) id) v ≡ true)
        ↔ IsLivePath (block_map func.next_block_id func.blocks) v id
  pub at_exit :
      (id v : ℕ) (b : Block)
      → IsReachable (block_map func.next_block_id func.blocks) entry id
      → get_or (block_map func.next_block_id func.blocks) id none ≡ some b
      → (has (set_at (live_outs liv) id) v ≡ true) ↔ (
          (to : ℕ) × (elem to (succs_of (some b)) ≡ true)
          × IsLivePath (block_map func.next_block_id func.blocks) v to)
  pub afters : AreAfters c (live_outs liv) func.blocks liv.live_after

block_sets-ins :
    (uds : List UseDef) (inns outs : List VregSet)
    → length uds ≡ length inns
    → length uds ≡ length outs
    → map (λ b. b.live_in) (block_sets uds inns outs) ≡ inns
unfolding block_sets
block_sets-ins [] [] outs e o = refl
block_sets-ins [] (i ∷ is) outs e o = absurd (omega arith)
block_sets-ins (u ∷ us) [] outs e o = absurd (omega arith)
block_sets-ins (u ∷ us) (i ∷ is) [] e o = absurd (omega arith)
block_sets-ins (u ∷ us) (i ∷ is) (t ∷ ts) e o =
    ap (λ r. i ∷ r) (block_sets-ins us is ts (omega arith) (omega arith))

block_sets-outs :
    (uds : List UseDef) (inns outs : List VregSet)
    → length uds ≡ length inns
    → length uds ≡ length outs
    → map (λ b. b.live_out) (block_sets uds inns outs) ≡ outs
unfolding block_sets
block_sets-outs [] inns [] e o = refl
block_sets-outs [] inns (t ∷ ts) e o = absurd (omega arith)
block_sets-outs (u ∷ us) [] outs e o = absurd (omega arith)
block_sets-outs (u ∷ us) (i ∷ is) [] e o = absurd (omega arith)
block_sets-outs (u ∷ us) (i ∷ is) (t ∷ ts) e o =
    ap (λ r. t ∷ r) (block_sets-outs us is ts (omega arith) (omega arith))

capacity_room : (n : ℕ) → n + 129 ≤ 2 ^ 32 → capacity n + 128 ≤ 2 ^ 32
capacity_room n h = ground arith

capacity_above : (n : ℕ) → n ≤ capacity n
capacity_above n = ground arith

module _ (c : ℕ) (func : Function) (wf : IsWellFormed func) (le : func.next_vreg ≤ c)
    (z : IsSized c (init (capacity func.next_vreg))) where
  abbrev by_id : List (Option Block)
  by_id = block_map func.next_block_id func.blocks

  abbrev nb : ℕ
  nb = func.next_block_id

  code_below : All (λ b. AreBelow c (code_of b)) by_id
  code_below =
      block_map-All (λ b. AreBelow c (code_of b)) nb func.blocks tt
        (All-mono (λ b. AreBelow func.next_vreg b.instrs) (λ b. AreBelow c b.instrs) func.blocks
          (λ b. AreBelow-mono func.next_vreg c b.instrs le) wf.registers)

  succs_below : All (AreSuccsBelow nb) by_id
  succs_below = block_map-All (AreSuccsBelow nb) nb func.blocks (λ x h. absurd cc) wf.targets

  abbrev AreSummaries : List UseDef → Type 0
  AreSummaries uds =
      (i : ℕ) → i < length by_id → IsSummary c (get_or by_id i none) (get_or uds i no_use_def)

  edges : AreEdges nb by_id (build_cfg nb by_id)
  edges = build_cfg-AreEdges nb by_id (length-block_map nb func.blocks) succs_below

  env_of-IsEnv : (uds : List UseDef) → AreSummaries uds → IsEnv c nb (env_of func uds)
  env_of-IsEnv uds sums =
      let len = length-block_map nb func.blocks in
      record {
        scratch = z;
        uses = λ id lt. (sums id (omega arith)).uses_sized;
        defs = λ id lt. (sums id (omega arith)).defs_sized;
        succs_inside = succs-inside edges succs_below;
        preds_inside = preds-inside edges len;
        mutual_edges = λ id p lt. preds-eq_succs edges id p;
      }

  path_used :
      (id v : ℕ) (m : Option Block)
      → get_or by_id id none ≡ m
      → used_first (code_of m) v ≡ true
      → IsLivePath by_id v id
  path_used id v none e h = absurd cc
  path_used id v (some b) e h = IsLivePath.used b e h

  path_through :
      (id to v : ℕ) (m : Option Block)
      → get_or by_id id none ≡ m
      → elem to (succs_of m) ≡ true
      → defined (code_of m) v ≡ false
      → IsLivePath by_id v to
      → IsLivePath by_id v id
  path_through id to v none e edge d p = absurd cc
  path_through id to v (some b) e edge d p = IsLivePath.through to b e d edge p

  -- The paths are a solution of the equations.
  paths-IsClosed :
      (uds : List UseDef)
      → AreSummaries uds
      → IsClosed nb (env_of func uds) (λ id v. IsLivePath by_id v id)
  paths-IsClosed uds sums =
      let len = length-block_map nb func.blocks in
      record {
        uses = λ id v lt m.
            path_used id v (get_or by_id id none) refl
              (sym ((sums id (omega arith)).uses_eq v) ∙ m);
        edges = λ id to v lt edge d p.
            path_through id to v (get_or by_id id none) refl
              (sym (ap (elem to) (edges.succs id)) ∙ edge)
              (sym ((sums id (omega arith)).defs_eq v) ∙ d) p;
      }

  module _ (entry : ℕ) (lt : entry < nb) where
    abbrev order : List ℕ
    order = rpo_of nb (build_cfg nb by_id) entry

    order-IsOrder : IsOrder nb (build_cfg nb by_id) entry order
    order-IsOrder = rpo_of-IsOrder nb (build_cfg nb by_id) entry lt

    elem-order : (id : ℕ) → IsReachable by_id entry id → elem id order ≡ true
    elem-order id start = order-IsOrder.has_entry
    elem-order id (step {id = from} to r edge) =
        order-IsOrder.has_succs from to (elem-order from r) (ap (elem to) (edges.succs from) ∙ edge)
          (All-get_or (AreSuccsBelow nb) by_id from none succs_below (λ x h. absurd cc) to edge)

    module _ (uds : List UseDef) (sums : AreSummaries uds) (st : Flow)
        (solved : (id : ℕ)
          → id < nb
          → elem id order ≡ true
          → is_present (env_of func uds) id ≡ true
          → IsSolved (env_of func uds) st id)
        (within : (id v : ℕ) → id < nb → mem st.live_in id v ≡ true → IsLivePath by_id v id) where
      equations :
          (id v : ℕ) (b : Block)
          → IsReachable by_id entry id
          → get_or by_id id none ≡ some b
          → IsSolved (env_of func uds) st id
      equations id v b r e =
          let m = elem-order id r in solved id (order-IsOrder.inside id m) m (ap is_some e)

      summary :
          (id : ℕ)
          → IsReachable by_id entry id
          → IsSummary c (get_or by_id id none) (get_or uds id no_use_def)
      summary id r =
          let len = length-block_map nb func.blocks in
          sums id (omega (arith, order-IsOrder.inside id (elem-order id r)))

      path_live :
          (v id : ℕ)
          → IsReachable by_id entry id
          → IsLivePath by_id v id
          → mem st.live_in id v ≡ true
      path_live v id r (used b e h) =
          let at_entry = (equations id v b r e).at_entry v in
          let sum = summary id r in
          ground (arith, at_entry, sum.uses_eq v, ap (λ t. used_first (code_of t) v) e)
      path_live v id r (through to b e d edge p) =
          let at_entry = (equations id v b r e).at_entry v in
          let sum = summary id r in
          let out : elem to (succs_of (get_or by_id id none)) ≡ true =
            ap (λ t. elem to (succs_of t)) e ∙ edge in
          let later =
            elem-any_live st.live_in (succs_at (build_cfg nb by_id) id) v to
              (ap (elem to) (edges.succs id) ∙ out) (path_live v to (step to r out) p) in
          ground (arith, at_entry, later, sum.defs_eq v, ap (λ t. defined (code_of t) v) e)

      at_entry_iff :
          (id v : ℕ)
          → IsReachable by_id entry id
          → (mem st.live_in id v ≡ true) ↔ IsLivePath by_id v id
      at_entry_iff id v r =
          (within id v (order-IsOrder.inside id (elem-order id r)), path_live v id r)

      at_exit_iff :
          (id v : ℕ) (b : Block)
          → IsReachable by_id entry id
          → get_or by_id id none ≡ some b
          → (mem st.live_out id v ≡ true)
            ↔ ((to : ℕ) × (elem to (succs_of (some b)) ≡ true) × IsLivePath by_id v to)
      at_exit_iff id v b r e =
          let at_exit = (equations id v b r e).at_exit v in
          let same = λ (to : ℕ). ap (elem to) (edges.succs id) ∙ ap (λ t. elem to (succs_of t)) e in
          (
            λ m.
                let (to, edge, live) =
                  any_live-elem st.live_in (succs_at (build_cfg nb by_id) id) v (sym at_exit ∙ m) in
                let out = sym (same to) ∙ edge in
                (
                  to,
                  out,
                  within to v
                      (All-get_or (AreSuccsBelow nb) by_id id none succs_below (λ x h. absurd cc) to
                        (ap (λ t. elem to (succs_of t)) e ∙ out))
                      live,
                ),
            λ (to, out, p).
                at_exit
                ∙ elem-any_live st.live_in (succs_at (build_cfg nb by_id) id) v to (same to ∙ out)
                    (path_live v to (step to r (ap (λ t. elem to (succs_of t)) e ∙ out)) p),
          )

  compute_from-Returns :
      (entry : Block) (others : List Block)
      → func.blocks ≡ entry ∷ others
      → Returns (compute_from func (entry ∷ others)) (IsExact c func entry.id)
  unfolding compute_from
  compute_from-Returns entry others e =
      let (uds, run, (count, sums)) =
        use_defs_of-Returns (capacity func.next_vreg) by_id z code_below in
      let lt : entry.id < nb = (subst (All (λ b. b.id < nb)) e wf.ids).0 in
      let order_ok = order-IsOrder entry.id lt in
      let (st, flow, (solved, within, ins, outs)) =
        solve-Returns (env_of func uds) (env_of-IsEnv uds sums) (order entry.id lt)
          (λ id v. IsLivePath by_id v id) (paths-IsClosed uds sums) order_ok.inside
          order_ok.distinct in
      let (afters, run', after_ok) =
        live_afters-Returns (capacity func.next_vreg) st.live_out func.blocks z outs wf.ids (
          All-mono (λ b. AreBelow func.next_vreg b.instrs) (λ b. AreBelow c b.instrs) func.blocks
            (λ b. AreBelow-mono func.next_vreg c b.instrs le) wf.registers) in
      let len = length-block_map nb func.blocks in
      let wide_in : length uds ≡ length st.live_in = omega (arith, ins.count) in
      let wide_out : length uds ≡ length st.live_out = omega (arith, outs.count) in
      let same_in = block_sets-ins uds st.live_in st.live_out wide_in wide_out in
      let same_out = block_sets-outs uds st.live_in st.live_out wide_in wide_out in
      let liv : IrLiveness = record {
        n_vregs = func.next_vreg;
        n_blocks = func.next_block_id;
        n_instrs = length (instrs_of func.blocks);
        blk = block_sets uds st.live_in st.live_out;
        live_after = afters;
      } in
      (
        liv,
        rw (run, flow, run') refl,
        record {
          at_entry =
              λ id v r. rw same_in (at_entry_iff entry.id lt uds sums st solved within id v r);
          at_exit = λ id v b r at.
              rw same_out (at_exit_iff entry.id lt uds sums st solved within id v b r at);
          afters = rw same_out after_ok;
        },
      )

ir_liveness_compute-some :
    (func : Function) (liv : IrLiveness)
    → (func.next_block_id == 0) ≡ false
    → compute_from func func.blocks ≡ some liv
    → ir_liveness_compute func ≡ some (some liv)
unfolding ir_liveness_compute
ir_liveness_compute-some func liv ids run = rw (ids, run) refl

-- The liveness analysis of a well-formed function that has a block: the worklist loop ends, no
-- `assert` fails, and the sets are exact. A register is in the set at the entry of a reachable block
-- exactly if a path from there leads to its use without a definition on the way, in the set at its
-- exit exactly if it is so in a successor, and the sets after the instructions follow from those.
pub ir_liveness_compute-Returns :
    (func : Function) (entry : Block) (others : List Block)
    → func.blocks ≡ entry ∷ others
    → IsWellFormed func
    → Returns (ir_liveness_compute func) λ r.
      (liv : IrLiveness) × (r ≡ some liv)
      × (c : ℕ) × (func.next_vreg ≤ c)
      × IsExact c func entry.id liv
ir_liveness_compute-Returns func entry others e wf =
    let (c, le, z) =
      init-IsSized (capacity func.next_vreg) (capacity_room func.next_vreg wf.room) in
    let le' : func.next_vreg ≤ c = omega (arith, capacity_above func.next_vreg, le) in
    let (liv, run, exact) = compute_from-Returns c func wf le' z entry others e in
    let lt = (subst (All (λ b. b.id < func.next_block_id)) e wf.ids).0 in
    (
      some liv,
      ir_liveness_compute-some func liv (ground (arith, lt)) (ap (compute_from func) e ∙ run),
      (liv, refl, c, le', exact),
    )
