-- ===== src/Tests/Analyses.antt =====
-- Examples of the liveness analysis, the graph builder and the fixed registers.
use compilador.Prelude.{
  ℕ, zero, suc, ◌<◌, ◌≡◌, refl, false, not, ◌&&◌, ◌||◌, some, List, [], ◌∷◌, arith, ◌==◌, Returns,
}
use compilador.VregSet.{init, has, remove, union_into}
use compilador.VregSet.Laws.{IsSized}
use compilador.Ir.Instr.{Instr, Function}
use compilador.Liveness.Result.{IrLiveness, instrs_of}
use compilador.Liveness.Instr.{instr_get_uses, instr_get_def}
use compilador.Liveness.Block.{block_use_def, backward, block_live_after}
use compilador.Liveness.Block.Summary.{
  AreBelow, AreLiveAfter, used_first, defined, block_live_after-Returns, block_use_def-Returns,
  use_def-eq-backward,
}
use compilador.Interference.Graph.{interferes}
use compilador.Interference.Graph.Sync.{IsGraph}
use compilador.Interference.Build
use compilador.Interference.Build.Edges.{joined, ifg_build_correct}
use compilador.Precolor.{Precolor, precolor_build, precolor_get, scout, live_after_at}
use compilador.Precolor.Pinned.{IsAbi, precolor_get-IsAbi}
use compilador.Precolor.CallLive.{is_live_after_call, is_some_result, scout-Returns}
use compilador.Tests.{
  v, const_to, add_to, call_to, ret_of, of_mask, of_mask-IsSized, sum_func, sum_liv,
  sum_live-AreSized,
}

ifg_build_correct_example :
    IsGraph (Build.ifg_build sum_func sum_liv)
    × ((a b : ℕ)
        → a < 5
        → b < 5
        → (a == b) ≡ false
        → interferes (Build.ifg_build sum_func sum_liv) a b
          ≡ joined (instrs_of sum_func.blocks) sum_liv.live_after a b)
ifg_build_correct_example = ifg_build_correct 64 sum_func sum_liv sum_live-AreSized

empty-IsSized : IsSized 64 (init 5)
unfolding init
empty-IsSized = of_mask-IsSized 0 (omega arith)

-- `v1 = v0; v0 = v0 + v1`
abbrev two_instrs : List Instr
two_instrs = add_to 1 0 0 ∷ add_to 0 0 1 ∷ []

two-AreBelow : AreBelow 64 two_instrs
unfolding instr_get_uses instr_get_def
two-AreBelow =
    (λ k h. ground arith, λ k h. ground arith, (λ k h. ground arith, λ k h. ground arith, tt))

block_live_after-Returns_example :
    Returns
      (block_live_after 5 two_instrs (of_mask 1))
      (AreLiveAfter 64 two_instrs (has (of_mask 1)))
block_live_after-Returns_example =
    block_live_after-Returns 5 two_instrs (of_mask 1) empty-IsSized
      (of_mask-IsSized 1 (omega arith)) two-AreBelow

block_use_def-Returns_example :
    Returns (block_use_def (record { use_set = of_mask 0; def_set = of_mask 0 }) two_instrs) λ r.
      IsSized 64 r.use_set
      × IsSized 64 r.def_set
      × ((k : ℕ)
          → has r.use_set k
            ≡ (has (of_mask 0) k || (not (has (of_mask 0) k) && used_first two_instrs k)))
      × ((k : ℕ) → has r.def_set k ≡ (has (of_mask 0) k || defined two_instrs k))
block_use_def-Returns_example =
    block_use_def-Returns (record { use_set = of_mask 0; def_set = of_mask 0 }) two_instrs
      (of_mask-IsSized 0 (omega arith)) (of_mask-IsSized 0 (omega arith)) two-AreBelow

use_def-eq-backward_example :
    Returns (block_use_def (record { use_set = init 5; def_set = init 5 }) two_instrs) λ bl.
      Returns (backward 5 two_instrs (of_mask 1)) λ r.
        (k : ℕ) → has r.1 k ≡ (has bl.use_set k || (has (of_mask 1) k && not (has bl.def_set k)))
use_def-eq-backward_example =
    use_def-eq-backward 5 two_instrs (of_mask 1) empty-IsSized (of_mask-IsSized 1 (omega arith))
      two-AreBelow

-- `v0 = 7; v1 = f(v0); v2 = v0 + v1; return v2;`
abbrev call_instrs : List Instr
call_instrs = const_to 0 ∷ call_to 1 (v 0 ∷ []) ∷ add_to 2 0 1 ∷ ret_of 2 ∷ []

abbrev call_func : Function
call_func = record sum_func { next_vreg = 3; blocks = record { id = 0; instrs = call_instrs } ∷ [] }

abbrev call_liv : IrLiveness
call_liv = record {
  n_vregs = 3;
  n_blocks = 1;
  n_instrs = 4;
  blk = [];
  live_after = of_mask 1 ∷ of_mask 3 ∷ of_mask 4 ∷ of_mask 0 ∷ [];
}

abbrev call_precolor : Precolor
call_precolor = record { n_vregs = 3; color = 255 ∷ 1 ∷ 1 ∷ []; call_live = of_mask 1 }

call_precolor_built : precolor_build call_func call_liv ≡ some call_precolor
unfolding precolor_build init remove union_into has
call_precolor_built = refl

precolor_get-IsAbi_example : IsAbi (precolor_get call_precolor 1)
precolor_get-IsAbi_example =
    precolor_get-IsAbi call_func call_liv call_precolor 1 call_precolor_built (omega arith)

call_live-IsSized : (i : ℕ) → i < 4 → IsSized 64 (live_after_at call_liv i)
call_live-IsSized zero lt = of_mask-IsSized 1 (omega arith)
call_live-IsSized (suc zero) lt = of_mask-IsSized 3 (omega arith)
call_live-IsSized (suc (suc zero)) lt = of_mask-IsSized 4 (omega arith)
call_live-IsSized (suc (suc (suc zero))) lt = of_mask-IsSized 0 (omega arith)
call_live-IsSized (suc (suc (suc (suc i)))) lt = absurd (omega arith)

scout-Returns_example : Returns (scout call_liv 0 (of_mask 0) call_instrs) λ t.
    IsSized 64 t
    × ((k : ℕ)
        → is_some_result call_instrs k ≡ false
        → has t k ≡ (is_live_after_call call_liv 0 call_instrs k || has (of_mask 0) k))
scout-Returns_example =
    scout-Returns call_liv call_live-IsSized 0 (of_mask 0) call_instrs
      (of_mask-IsSized 0 (omega arith)) (λ k h. ground arith)
