-- ===== src/Tests/Sets.antt =====
-- Examples of the sets and of the graph.
use compilador.Interference.Matrix.{empty_graph}
use compilador.Interference.Graph.{add_edge}
use compilador.Interference.Graph.Sync.{IsGraph, empty_graph-IsGraph, add_edge-IsGraph}

add_edge-IsGraph_example : IsGraph (add_edge (empty_graph 4) 3 1).0
add_edge-IsGraph_example = add_edge-IsGraph (empty_graph 4) 3 1 (empty_graph-IsGraph 4)
