-- ===== src/Interference/Build/Edges.antt =====
-- The edges of the graph that `ifg_build` returns.
use compilador.Prelude.{
  ℕ, ◌<◌, ◌≡◌, refl, ◌∙◌, Bool, false, not, ◌&&◌, ◌||◌, List, [], ◌∷◌, Option, none, some, arith,
  ◌==◌, elem, Bool-cases, inl, inr,
}
use compilador.VregSet.{VregSet, has, members}
use compilador.VregSet.Laws.{IsSized}
use compilador.VregSet.Members.{elem-members}
use compilador.Ir.Types.{Value}
use compilador.Ir.Instr.{Op, Instr, Function}
use compilador.Liveness.Instr
use compilador.Liveness.Result.{IrLiveness, instrs_of}
use compilador.Interference.Matrix.{Ifg, tri_get, empty_graph}
use compilador.Interference.Graph.{interferes}
use compilador.Interference.Graph.Sync.{
  IsGraph, add_edge-n, add_edge-IsGraph, interferes-add_edge, empty_graph-IsGraph,
  interferes-empty_graph,
}
use compilador.Interference.Build.{
  instr_get_def, instr_is_move, offer_edge, add_edges, record_move, record_if_move, move_source,
  def_edges, build_step, build_loop, ifg_build,
}

-- Is `d` the register that the instruction defines?
abbrev pub is_def : Option ℕ → ℕ → Bool
is_def none v = false
is_def (some d) v = d == v

-- The instruction joins `a` to `b`: it defines `a`, and `b` is live after it and not what it copies.
abbrev pub joins : Instr → VregSet → ℕ → ℕ → Bool
joins i la a b =
    is_def (instr_get_def i) a && (has la b && not (b == move_source (instr_is_move i)))

abbrev pub joined : List Instr → List VregSet → ℕ → ℕ → Bool
joined [] las a b = false
joined (i ∷ is) [] a b = false
joined (i ∷ is) (la ∷ las) a b = (joins i la a b || joins i la b a) || joined is las a b

-- `g'` is `g` with the edges of `p` added.
pub record Adds (p : ℕ → ℕ → Bool) (g g' : Ifg) : Type 0 where
  pub graph : IsGraph g'
  pub nodes : g'.n ≡ g.n
  pub edges :
      (a b : ℕ)
      → a < g.n
      → b < g.n
      → (a == b) ≡ false
      → interferes g' a b ≡ ((p a b || p b a) || interferes g a b)

offered : ℕ → ℕ → ℕ → ℕ → ℕ → Bool
offered d s x a b = d == a && (x == b && not (b == s))

offer_edge-Adds : (d s x : ℕ) (g : Ifg) → IsGraph g → Adds (offered d s x) g (offer_edge d s x g)
unfolding offer_edge offered
offer_edge-Adds d s x g v = elim (Bool-cases (x == d)) [
  | inl self ↦ rw self (record { graph = v; nodes = refl; edges = λ a b la lb ne. ground arith })
  | inr other ↦ elim (Bool-cases (x == s)) [
    | inl source ↦
        rw (other, source)
          (record { graph = v; nodes = refl; edges = λ a b la lb ne. ground arith })
    | inr live ↦
        rw (other, live)
          (record {
            graph = add_edge-IsGraph g d x v;
            nodes = add_edge-n g d x;
            edges = λ a b la lb ne. ground (arith, interferes-add_edge g d x a b v);
          })
  ]
]

listed : ℕ → ℕ → List ℕ → ℕ → ℕ → Bool
listed d s xs a b = d == a && (elem b xs && not (b == s))

add_edges-Adds :
    (d s : ℕ) (xs : List ℕ) (g : Ifg) → IsGraph g → Adds (listed d s xs) g (add_edges d s xs g)
unfolding add_edges listed
add_edges-Adds d s [] g v = record { graph = v; nodes = refl; edges = λ a b la lb ne. ground arith }
add_edges-Adds d s (x ∷ xs) g v =
    let one = offer_edge-Adds d s x g v in
    let rest = add_edges-Adds d s xs (offer_edge d s x g) one.graph in
    record {
      graph = rest.graph;
      nodes = rest.nodes ∙ one.nodes;
      edges = λ a b la lb ne.
          rest.edges a b (omega (arith, one.nodes)) (omega (arith, one.nodes)) ne
          ∙ unfold offered in ground (arith, one.edges a b la lb ne);
    }

moves-IsGraph : (g : Ifg) (d s : ℕ) → IsGraph g → IsGraph (record_move g d s)
unfolding record_move interferes tri_get
moves-IsGraph g d s v = record {
  laid = record { rows = v.laid.rows; room = v.laid.room };
  lists = v.lists;
  ascending = v.ascending;
  in_sync = v.in_sync;
}

record_if_move-Adds :
    (mv : Option (ℕ × ℕ)) (g : Ifg) → IsGraph g → Adds (λ a b. false) g (record_if_move mv g)
unfolding record_if_move
record_if_move-Adds none g v = record { graph = v; nodes = refl; edges = λ a b la lb ne. refl }
record_if_move-Adds (some (d, s)) g v = record {
  graph = moves-IsGraph g d s v;
  nodes = refl;
  edges = λ a b la lb ne. unfold interferes tri_get record_move in refl;
}

def_edges-Adds :
    {c : ℕ} (d : Option ℕ) (ins : Instr) (la : VregSet) (g : Ifg)
    → IsSized c la
    → IsGraph g
    → Adds
        (λ a b. is_def d a && (has la b && not (b == move_source (instr_is_move ins))))
        g
        (def_edges d ins la g)
unfolding def_edges
def_edges-Adds none ins la g z v = record { graph = v; nodes = refl; edges = λ a b lt lt' ne. refl }
def_edges-Adds (some d) ins la g z v =
    let mv = instr_is_move ins in
    let moved = record_if_move-Adds mv g v in
    let all = add_edges-Adds d (move_source mv) (members la) (record_if_move mv g) moved.graph in
    record {
      graph = all.graph;
      nodes = all.nodes ∙ moved.nodes;
      edges = λ a b lt lt' ne.
          all.edges a b (omega (arith, moved.nodes)) (omega (arith, moved.nodes)) ne
          ∙ unfold listed in
            rw (elem-members la a z, elem-members la b z, moved.edges a b lt lt' ne) refl;
    }

-- All sets have one capacity.
abbrev pub AreSized : ℕ → List VregSet → Type 0
AreSized c [] = Unit
AreSized c (s ∷ ss) = IsSized c s × AreSized c ss

pub build_loop-Adds :
    (c : ℕ) (g : Ifg) (is : List Instr) (las : List VregSet)
    → AreSized c las
    → IsGraph g
    → IsGraph (build_loop g is las)
      × ((build_loop g is las).n ≡ g.n)
      × ((a b : ℕ)
          → a < g.n
          → b < g.n
          → (a == b) ≡ false
          → interferes (build_loop g is las) a b ≡ (joined is las a b || interferes g a b))
unfolding build_loop
build_loop-Adds c g [] las z v = (v, refl, λ a b lt lt' ne. refl)
build_loop-Adds c g (i ∷ is) [] z v = (v, refl, λ a b lt lt' ne. refl)
build_loop-Adds c g (i ∷ is) (la ∷ las) (z, zs) v =
    let one = def_edges-Adds (instr_get_def i) i la g z v in
    let (graph, nodes, edges) = build_loop-Adds c (build_step g i la) is las zs one.graph in
    (
      graph,
      nodes ∙ one.nodes,
      λ a b lt lt' ne.
          edges a b (omega (arith, one.nodes)) (omega (arith, one.nodes)) ne
          ∙ ground (arith, one.edges a b lt lt' ne),
    )

-- For live sets of one capacity, the graph that `ifg_build` returns keeps matrix and lists in
-- step, and two different registers interfere exactly when some instruction defines one of them
-- while the other is live after it and is not the source that it copies.
pub ifg_build_correct :
    (c : ℕ) (func : Function) (liv : IrLiveness)
    → AreSized c liv.live_after
    → IsGraph (ifg_build func liv)
      × ((a b : ℕ)
          → a < liv.n_vregs
          → b < liv.n_vregs
          → (a == b) ≡ false
          → interferes (ifg_build func liv) a b ≡ joined (instrs_of func.blocks) liv.live_after a b)
unfolding ifg_build
ifg_build_correct c func liv z =
    let n = liv.n_vregs in
    let (graph, nodes, edges) =
      build_loop-Adds c (empty_graph n) (instrs_of func.blocks) liv.live_after z
        (empty_graph-IsGraph n) in
    let same : (empty_graph n).n ≡ n = unfold empty_graph in refl in
    (
      graph,
      λ a b lt lt' ne.
          edges a b (omega (arith, same)) (omega (arith, same)) ne
          ∙ ground (arith, interferes-empty_graph n a b),
    )

agree :
    (op : Op) (dst src0 src1 : Value)
    → instr_get_def (record { op = op; dst = dst; src0 = src0; src1 = src1 })
      ≡ Instr.instr_get_def (record { op = op; dst = dst; src0 = src0; src1 = src1 })
unfolding instr_get_def Instr.instr_get_def
agree Op.store dst src0 src1 = refl
agree _ dst src0 src1 = refl

-- The two copies of `instr_get_def` agree.
pub instr_get_def_agree : (i : Instr) → instr_get_def i ≡ Instr.instr_get_def i
instr_get_def_agree i = agree i.op i.dst i.src0 i.src1
