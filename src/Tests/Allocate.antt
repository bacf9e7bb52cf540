-- ===== src/Tests/Allocate.antt =====
-- Examples and tests of the analyses and of the allocator.
use compilador.Prelude.{
  ℕ, zero, suc, ◌≤◌, ◌<◌, ◌≡◌, refl, sym, true, false, some, [], ◌∷◌, arith, ◌==◌, ◌&&◌, elem,
  count_below, ids_from,
}
use compilador.Interference.Matrix.{empty_graph, tri_set, tri_get, tri_bit}
use compilador.Interference.Adjacency.{adj_insert_sorted, adj_grow, insert_at, search_point}
use compilador.VregSet.{members, word_members, ctz, has}
use compilador.Interference.Build
use compilador.Regalloc.Select.{propagate, select, pref_normal}
use compilador.Regalloc.Neighbors.{get_alias, walk, k_of, read_neighbors, read_buffer}
use compilador.Regalloc.Coalesce.{coalesce, coalesce_step}
use compilador.Regalloc.Simplify.{simplify, simplify_loop, start, wdeg_of, is_candidate}
use compilador.Interference.Graph.{interferes, degree, neighbors, add_edge}
use compilador.Interference.Build.{ifg_build}
use compilador.Interference.Build.Edges.{ifg_build_correct}
use compilador.Precolor.{precolor_build, precolor_get, precolor_is_fixed, precolor_is_call_live}
use compilador.VregSet.{init}
use compilador.Interference.Graph.Sync.{IsGraph}
use compilador.Regalloc.Neighbors.Alias.{ids-IsForest}
use compilador.Regalloc.Coalesce.Safe.{IsMerged, coalesce-IsMerged}
use compilador.Regalloc.Simplify.Complete.{simplify_stack}
use compilador.Regalloc.Build.{regalloc_build, seed}
use compilador.Regalloc.Build.Correct.{
  IsInput, color_of, representative, regalloc_no_clash, regalloc_in_budget, regalloc_keeps_fixed,
  regalloc_counts_spills,
}
use compilador.Tests.{
  sum_live-AreSized, sum_func, sum_liv, sum_graph, sum_precolor, sum_alloc, no_junk,
}

sum_precolor_built : precolor_build sum_func sum_liv ≡ some sum_precolor
unfolding precolor_build init
sum_precolor_built = refl

sum_graph_built : ifg_build sum_func sum_liv ≡ sum_graph
unfolding ifg_build Build.build_loop Build.build_step Build.instr_get_def Build.instr_is_move
    Build.record_move add_edge empty_graph tri_set tri_bit members word_members ctz
    adj_insert_sorted adj_grow insert_at search_point
sum_graph_built = refl

sum_colors : (regalloc_build no_junk sum_func sum_graph sum_precolor).color ≡ 5 ∷ 5 ∷ 4 ∷ 4 ∷ 1 ∷ []
unfolding regalloc_build propagate get_alias coalesce coalesce_step interferes tri_get tri_bit
    precolor_is_fixed precolor_get read_neighbors read_buffer neighbors k_of walk select simplify
    simplify_loop start wdeg_of is_candidate degree precolor_is_call_live has
sum_colors = refl

sum_graph-IsGraph : IsGraph sum_graph
sum_graph-IsGraph =
    rw (sym sum_graph_built) (ifg_build_correct 64 sum_func sum_liv sum_live-AreSized).0

small_degree : (k : ℕ) → k < 5 → degree sum_graph k ≤ 512
unfolding degree
small_degree zero lt = omega arith
small_degree (suc zero) lt = omega arith
small_degree (suc (suc zero)) lt = omega arith
small_degree (suc (suc (suc zero))) lt = omega arith
small_degree (suc (suc (suc (suc zero)))) lt = omega arith
small_degree (suc (suc (suc (suc (suc k))))) lt = absurd (omega arith)

sum-IsInput : IsInput sum_func sum_graph
sum-IsInput = record {
  graph = sum_graph-IsGraph;
  nodes = refl;
  small = small_degree;
  moves = ((omega arith, omega arith), tt);
}

regalloc_no_clash_example : (color_of sum_alloc 0 == color_of sum_alloc 3) ≡ false
unfolding regalloc_build propagate get_alias coalesce coalesce_step interferes tri_get tri_bit
    precolor_is_fixed precolor_get read_neighbors read_buffer neighbors k_of walk select simplify
    simplify_loop start wdeg_of is_candidate degree precolor_is_call_live has
regalloc_no_clash_example =
    regalloc_no_clash no_junk sum_func sum_graph sum_precolor sum-IsInput 0 3 (omega arith) refl
      refl refl refl

regalloc_in_budget_example : elem (color_of sum_alloc 2) (254 ∷ pref_normal) ≡ true
unfolding regalloc_build propagate get_alias coalesce coalesce_step interferes tri_get tri_bit
    precolor_is_fixed precolor_get read_neighbors read_buffer neighbors k_of walk select simplify
    simplify_loop start wdeg_of is_candidate degree precolor_is_call_live has
regalloc_in_budget_example =
    regalloc_in_budget no_junk sum_func sum_graph sum_precolor sum-IsInput 2 (omega arith) refl

regalloc_keeps_fixed_example : color_of sum_alloc 4 ≡ 1
unfolding regalloc_build propagate get_alias coalesce coalesce_step interferes tri_get tri_bit
    precolor_is_fixed precolor_get read_neighbors read_buffer neighbors k_of walk select simplify
    simplify_loop start wdeg_of is_candidate degree precolor_is_call_live has
regalloc_keeps_fixed_example =
    regalloc_keeps_fixed no_junk sum_func sum_graph sum_precolor sum-IsInput 4 (omega arith) refl

no_spill_number : (k : ℕ) → k < 5 → (precolor_get sum_precolor k == 254) ≡ false
unfolding precolor_get
no_spill_number zero lt = refl
no_spill_number (suc zero) lt = refl
no_spill_number (suc (suc zero)) lt = refl
no_spill_number (suc (suc (suc zero))) lt = refl
no_spill_number (suc (suc (suc (suc zero)))) lt = refl
no_spill_number (suc (suc (suc (suc (suc k))))) lt = absurd (omega arith)

regalloc_counts_spills_example :
    sum_alloc.n_spills
    ≡ count_below 5 (λ k.
      (representative no_junk sum_func sum_graph sum_precolor k == k)
      && (color_of sum_alloc k == 254))
regalloc_counts_spills_example =
    regalloc_counts_spills no_junk sum_func sum_graph sum_precolor sum-IsInput no_spill_number

coalesce-IsMerged_example : IsMerged 5 (seed sum_precolor 5) (
    coalesce no_junk sum_graph sum_precolor 5
      (record { alias = ids_from 0 5; color = seed sum_precolor 5 })
      sum_graph.moves)
coalesce-IsMerged_example =
    coalesce-IsMerged no_junk sum_graph sum_precolor 5 (seed sum_precolor 5)
      (record { alias = ids_from 0 5; color = seed sum_precolor 5 }) sum_graph.moves
      ((omega arith, omega arith), tt) (0, ids-IsForest 5, refl)

simplify_stack_example :
    elem 2 (simplify no_junk sum_graph sum_precolor (ids_from 0 5) 5).stack ≡ true
unfolding get_alias walk precolor_is_fixed precolor_get
simplify_stack_example =
    simplify_stack no_junk sum_graph sum_precolor (ids_from 0 5) 5 2 (omega arith)
