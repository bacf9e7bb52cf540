-- ===== src/Liveness/Dataflow.antt =====
-- Step 6 of `ir_liveness_compute`: the worklist. The circular array `wl` with its two counters is the
-- list of the ids between them: an id is added only while it is not in the list, so the `nb` places
-- are enough. A scratch set that is cleared or written over is a fresh one.
pub mod Queue
pub mod Equations
pub mod Progress
pub mod Solve
use compilador.Prelude.{
  ℕ, zero, suc, ◌+◌, ◌*◌, Bool, true, false, List, [], ◌∷◌, ◌++◌, Option, none, some, if◌then◌else◌,
  get_or, set, replicate, ◌>>=◌,
}
use compilador.VregSet.{VregSet, init, copy, union_into, minus_into, equal}
use compilador.Ir.Instr.{Block}
use compilador.Liveness.Block.{UseDef}
use compilador.Liveness.Cfg.{CfgNode, no_node, succs_at, preds_at}

pub record Flow : Type 0 where
  pub live_in : List VregSet
  pub live_out : List VregSet
  pub wl : List ℕ
  pub in_wl : List Bool

-- What the loop reads and leaves alone.
pub record Env : Type 0 where
  pub ncap : ℕ
  pub by_id : List (Option Block)
  pub cfg : List CfgNode
  pub use_defs : List UseDef

abbrev pub no_words : VregSet
no_words = record { words = []; cap = 0 }

abbrev pub no_use_def : UseDef
no_use_def = record { use_set = no_words; def_set = no_words }

abbrev pub set_at : List VregSet → ℕ → VregSet
set_at sets id = get_or sets id no_words

abbrev pub use_def_at : Env → ℕ → UseDef
use_def_at e id = get_or e.use_defs id no_use_def

-- `new_live_out`
pub union_live : List VregSet → VregSet → List ℕ → VregSet
union_live sets acc [] = acc
union_live sets acc (s ∷ ss) = union_live sets (union_into acc (set_at sets s)).0 ss

-- `new_live_in`, from a copy of `new_live_out`
pub new_live_in : UseDef → VregSet → VregSet
new_live_in ud out = (union_into (minus_into out ud.def_set) ud.use_set).0

pub enqueue : Flow → ℕ → Flow
enqueue st pid =
    if get_or st.in_wl pid true
    then st
    else record st { wl = st.wl ++ pid ∷ []; in_wl = set st.in_wl pid true }

pub enqueue_all : Flow → List ℕ → Flow
enqueue_all st [] = st
enqueue_all st (p ∷ ps) = enqueue_all (enqueue st p) ps

-- The two branches of the update, once the new sets are known.
pub store_sets : Env → Flow → ℕ → VregSet → VregSet → Option Flow
unfolding enqueue_all enqueue
store_sets e st id new_in new_out =
    if equal new_in (set_at st.live_in id)
    then (do
      out ← copy (set_at st.live_out id) new_out
      some (record st { live_out = set st.live_out id out }))
    else do
      inn ← copy (set_at st.live_in id) new_in
      out ← copy (set_at st.live_out id) new_out
      some (
          enqueue_all
            (record st { live_in = set st.live_in id inn; live_out = set st.live_out id out })
            (preds_at e.cfg id))

pub update : Env → Flow → ℕ → Option Flow
unfolding union_live new_live_in store_sets
update e st id = do
  let new_out = union_live st.live_in (init e.ncap) (succs_at e.cfg id)
  start ← copy (init e.ncap) new_out
  store_sets e st id (new_live_in (use_def_at e id) start) new_out

-- A block that is missing is passed over.
pub process : Env → Flow → ℕ → Option Block → Option Flow
unfolding update
process e st id none = some st
process e st id (some b) = update e st id

pub pop_step : Env → Flow → List ℕ → Option Flow
unfolding process
pop_step e st [] = some st
pop_step e st (id ∷ rest) =
    process e (record st { wl = rest; in_wl = set st.in_wl id false }) id (get_or e.by_id id none)

abbrev pub is_empty : List ℕ → Bool
is_empty [] = true
is_empty (x ∷ xs) = false

-- `none` when the rounds run out, or an `assert` fails.
unfoldable pub flow_loop : ℕ → Env → Flow → Option Flow
unfolding pop_step
flow_loop zero e st = if is_empty st.wl then some st else none
flow_loop (suc fuel) e st =
    let next = pop_step e st st.wl >>= flow_loop fuel e in if is_empty st.wl then some st else next

-- The ids in reverse postorder.
pub start_queue : Flow → List ℕ → Flow
start_queue st [] = st
start_queue st (id ∷ ids) =
    start_queue (record st { wl = st.wl ++ id ∷ []; in_wl = set st.in_wl id true }) ids

abbrev pub empty_flow : ℕ → ℕ → Flow
empty_flow ncap nb = record {
  live_in = replicate nb (init ncap);
  live_out = replicate nb (init ncap);
  wl = [];
  in_wl = replicate nb false;
}

-- A round that is not followed by a growth of some set shortens the queue; there are at most
-- `nb * bits` growths, and the queue holds at most `nb` ids.
abbrev pub rounds : ℕ → ℕ → ℕ
rounds nb bits = nb * bits * (nb + 1) + nb

unfoldable pub solve : Env → ℕ → List ℕ → Option Flow
unfolding flow_loop start_queue
solve e nb rpo = flow_loop (rounds nb (init e.ncap).cap) e (start_queue (empty_flow e.ncap nb) rpo)
