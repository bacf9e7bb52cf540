-- ===== src/Liveness/Cfg/Edges.antt =====
-- The edges of the graph that the two passes build.
use compilador.Prelude.{
  ℕ, zero, suc, ◌+◌, ◌-◌, ◌≤◌, ◌<◌, ◌≡◌, refl, ◌∙◌, ap, sym, true, false, ◌&&◌, ◌||◌, List, [], ◌∷◌,
  ◌++◌, arith, ltb, leb, ◌==◌, if◌then◌else◌, get_or, set, replicate, length, length-set,
  length-replicate, get_or-set, get_or-set_field, get_or-replicate, elem, elem-append, Option, none,
  some, Bool-cases, inl, inr, All, All-get_or,
}
use compilador.Ir.Instr.{Block}
use compilador.Liveness.Instr.{block_get_succs}
use compilador.Liveness.Cfg.{
  CfgNode, no_node, max_succs, add_pred, add_preds, link, link_all, build_cfg, succs_at, preds_at,
}

abbrev pub succs_of : Option Block → List ℕ
succs_of none = []
succs_of (some b) = block_get_succs b max_succs

-- The successors of the block are among the `nb` ids.
abbrev pub AreSuccsBelow : ℕ → Option Block → Type 0
AreSuccsBelow nb b = (x : ℕ) → elem x (succs_of b) ≡ true → x < nb

-- The lists of one node change as stated, and the others stay.
record IsLinked (nb id : ℕ) (sids : List ℕ) (cfg next : List CfgNode) : Type 0 where
  size : length next ≡ nb
  succs : (x : ℕ) → succs_at next x ≡ succs_at cfg x
  preds :
      (p x : ℕ) → elem p (preds_at next x) ≡ (elem p (preds_at cfg x) || (p == id && elem x sids))

add_pred-IsLinked :
    (nb id : ℕ) (cfg : List CfgNode) (sid : ℕ)
    → length cfg ≡ nb
    → sid < nb
    → IsLinked nb id (sid ∷ []) cfg (add_pred id cfg sid)
unfolding add_pred
add_pred-IsLinked nb id cfg sid len lt =
    let preds = preds_at cfg sid ++ id ∷ [] in
    let node : CfgNode = record (get_or cfg sid no_node) { pred_ids = preds } in
    let inside : sid < length cfg = omega arith in
    record {
      size = length-set cfg sid node ∙ len;
      succs =
          λ x. get_or-set_field (λ (t : CfgNode). t.succ_ids) cfg sid x node no_node inside refl;
      preds = λ p x.
          ap (λ (t : CfgNode). elem p t.pred_ids) (get_or-set cfg sid x node no_node inside)
          ∙ elim (Bool-cases (sid == x)) [
            | inl here ↦
                let e : sid ≡ x = ground arith in
                rw here (
                  elem-append p (preds_at cfg sid) (id ∷ [])
                  ∙ ground (arith, ap (λ t. elem p (preds_at cfg t)) e))
            | inr other ↦ rw other (ground arith)
          ];
    }

add_preds-IsLinked :
    (nb id : ℕ) (cfg : List CfgNode) (sids : List ℕ)
    → length cfg ≡ nb
    → ((x : ℕ) → elem x sids ≡ true → x < nb)
    → IsLinked nb id sids cfg (add_preds id cfg sids)
unfolding add_preds
add_preds-IsLinked nb id cfg [] len inside = record {
  size = len;
  succs = λ x. refl;
  preds = λ p x. ground arith;
}
add_preds-IsLinked nb id cfg (sid ∷ sids) len inside =
    let one = add_pred-IsLinked nb id cfg sid len (inside sid (ground arith)) in
    let all =
      add_preds-IsLinked nb id (add_pred id cfg sid) sids one.size
        (λ x m. inside x (ground arith)) in
    record {
      size = all.size;
      succs = λ x. all.succs x ∙ one.succs x;
      preds = λ p x. ground (arith, all.preds p x, one.preds p x);
    }

-- After the pass for one id.
record IsEntered (nb id : ℕ) (b : Option Block) (cfg next : List CfgNode) : Type 0 where
  size : length next ≡ nb
  succs : (x : ℕ) → succs_at next x ≡ (if id == x then succs_of b else succs_at cfg x)
  preds :
      (p x : ℕ)
      → elem p (preds_at next x) ≡ (elem p (preds_at cfg x) || (p == id && elem x (succs_of b)))

link-IsEntered :
    (nb id : ℕ) (cfg : List CfgNode) (b : Option Block)
    → length cfg ≡ nb
    → id < nb
    → succs_at cfg id ≡ []
    → AreSuccsBelow nb b
    → IsEntered nb id b cfg (link cfg id b)
unfolding link
link-IsEntered nb id cfg none len lt fresh inside = record {
  size = len;
  succs = λ x. elim (Bool-cases (id == x)) [
    | inl here ↦ let e : id ≡ x = ground arith in rw here (ap (succs_at cfg) (sym e) ∙ fresh)
    | inr other ↦ rw other refl
  ];
  preds = λ p x. ground arith;
}
link-IsEntered nb id cfg (some b) len lt fresh inside =
    let succs = block_get_succs b max_succs in
    let node : CfgNode = record (get_or cfg id no_node) { succ_ids = succs } in
    let room : id < length cfg = omega arith in
    let all =
      add_preds-IsLinked nb id (set cfg id node) succs (length-set cfg id node ∙ len) inside in
    record {
      size = all.size;
      succs = λ x.
          all.succs x
          ∙ ap (λ (t : CfgNode). t.succ_ids) (get_or-set cfg id x node no_node room)
          ∙ elim (Bool-cases (id == x)) [ inl here ↦ rw here refl | inr other ↦ rw other refl ];
      preds = λ p x.
          all.preds p x
          ∙ ap (λ (t : List ℕ). elem p t || (p == id && elem x succs))
              (get_or-set_field (λ (t : CfgNode). t.pred_ids) cfg id x node no_node room refl);
    }

-- After the pass for the ids from `id` on.
record IsBuilt (nb id : ℕ) (bs : List (Option Block)) (cfg next : List CfgNode) : Type 0 where
  size : length next ≡ nb
  succs :
      (x : ℕ)
      → succs_at next x ≡ (if ltb x id then succs_at cfg x else succs_of (get_or bs (x - id) none))
  preds :
      (p x : ℕ)
      → elem p (preds_at next x)
        ≡ (elem p (preds_at cfg x) || (leb id p && elem x (succs_of (get_or bs (p - id) none))))

at_later :
    {A : Type 0} (b d : A) (bs : List A) (id x : ℕ)
    → id < x
    → get_or (b ∷ bs) (x - id) d ≡ get_or bs (x - (id + 1)) d
at_later b d bs id x lt =
    let e : x - id ≡ suc (x - (id + 1)) = omega arith in ap (λ i. get_or (b ∷ bs) i d) e

at_first : {A : Type 0} (b d : A) (bs : List A) (id : ℕ) → get_or (b ∷ bs) (id - id) d ≡ b
at_first b d bs id = let e : id - id ≡ 0 = omega arith in ap (λ i. get_or (b ∷ bs) i d) e

link_all-IsBuilt :
    (nb id : ℕ) (bs : List (Option Block)) (cfg : List CfgNode)
    → length cfg ≡ nb
    → id + length bs ≤ nb
    → ((x : ℕ) → id ≤ x → succs_at cfg x ≡ [])
    → All (AreSuccsBelow nb) bs
    → IsBuilt nb id bs cfg (link_all cfg id bs)
unfolding link_all
link_all-IsBuilt nb id [] cfg len room fresh inside = record {
  size = len;
  succs = λ x. elim (Bool-cases (ltb x id)) [
    | inl before ↦ rw before refl
    | inr after ↦ rw after (fresh x (ground arith))
  ];
  preds = λ p x. ground arith;
}
link_all-IsBuilt nb id (b ∷ bs) cfg len room fresh inside =
    let one = link-IsEntered nb id cfg b len (omega arith) (fresh id (omega arith)) inside.0 in
    let all =
      link_all-IsBuilt nb (id + 1) bs (link cfg id b) one.size (omega arith)
        (λ x le.
          let later : (id == x) ≡ false = ground arith in
          one.succs x ∙ rw later (fresh x (omega arith)))
        inside.1 in
    record {
      size = all.size;
      succs = λ x. all.succs x ∙ elim (Bool-cases (ltb x id)) [
        | inl before ↦
            let e : ltb x (id + 1) ≡ true = ground arith in
            let o : (id == x) ≡ false = ground arith in rw (e, before) (one.succs x ∙ rw o refl)
        | inr after ↦ elim (Bool-cases (id == x)) [
          | inl here ↦
              let e : ltb x (id + 1) ≡ true = ground arith in
              let i : id ≡ x = ground arith in
              rw (e, after)
                (one.succs x
                  ∙ rw here (ap succs_of (sym (at_first b none bs id)))
                  ∙ ap (λ t. succs_of (get_or (b ∷ bs) (t - id) none)) i)
          | inr other ↦
              let e : ltb x (id + 1) ≡ false = ground arith in
              rw (e, after) (ap succs_of (sym (at_later b none bs id x (ground arith))))
        ]
      ];
      preds = λ p x. all.preds p x ∙ elim (Bool-cases (leb (id + 1) p)) [
        | inl later ↦ ground (
          arith,
          one.preds p x,
          ap (λ t. elem x (succs_of t)) (at_later b none bs id p (ground arith)),
        )
        | inr before ↦ elim (Bool-cases (p == id)) [
          | inl here ↦
              let i : id ≡ p = ground arith in
              ground (
                arith,
                one.preds p x,
                ap (λ t. elem x (succs_of (get_or (b ∷ bs) (t - id) none))) i,
                ap (λ t. elem x (succs_of t)) (at_first b none bs id),
              )
          | inr other ↦ ground (arith, one.preds p x)
        ]
      ];
    }

-- `AreEdges nb by_id cfg`: the successors of a node are those of its block, and its predecessors the
-- blocks with it as a successor.
pub record AreEdges (nb : ℕ) (by_id : List (Option Block)) (cfg : List CfgNode) : Type 0 where
  pub size : length cfg ≡ nb
  pub succs : (x : ℕ) → succs_at cfg x ≡ succs_of (get_or by_id x none)
  pub preds : (p x : ℕ) → elem p (preds_at cfg x) ≡ elem x (succs_of (get_or by_id p none))

-- The control-flow graph of a block map whose successor ids are all below `nb`: the successors of a
-- node are those of its block, and its predecessors are exactly the blocks with it as a successor.
pub build_cfg-AreEdges :
    (nb : ℕ) (by_id : List (Option Block))
    → length by_id ≡ nb
    → All (AreSuccsBelow nb) by_id
    → AreEdges nb by_id (build_cfg nb by_id)
unfolding build_cfg
build_cfg-AreEdges nb by_id len inside =
    let all =
      link_all-IsBuilt nb 0 by_id (replicate nb no_node) (length-replicate nb no_node) (omega arith)
        (λ x le. ap (λ (t : CfgNode). t.succ_ids) (get_or-replicate nb x no_node)) inside in
    let base = λ (x : ℕ). let e : x - 0 ≡ x = omega arith in e in
    record {
      size = all.size;
      succs = λ x.
          let all_in : ltb x 0 ≡ false = ground arith in
          all.succs x ∙ rw all_in (ap (λ t. succs_of (get_or by_id t none)) (base x));
      preds = λ p x.
          let all_in : leb 0 p ≡ true = ground arith in
          all.preds p x
          ∙ ap
              (λ (t : CfgNode).
                elem p t.pred_ids || (leb 0 p && elem x (succs_of (get_or by_id (p - 0) none))))
              (get_or-replicate nb x no_node)
          ∙ rw all_in (ap (λ t. elem x (succs_of (get_or by_id t none))) (base p));
    }

inside_map :
    (bs : List (Option Block)) (i x : ℕ)
    → elem x (succs_of (get_or bs i none)) ≡ true
    → i < length bs
inside_map [] i x h = absurd cc
inside_map (b ∷ bs) zero x h = omega arith
inside_map (b ∷ bs) (suc i) x h = ground (arith, inside_map bs i x h)

module _ {nb : ℕ} {by_id : List (Option Block)} {cfg : List CfgNode}
    (edges : AreEdges nb by_id cfg) where
  pub succs-inside :
      All (AreSuccsBelow nb) by_id → (id s : ℕ) → elem s (succs_at cfg id) ≡ true → s < nb
  succs-inside below id s m =
      All-get_or (AreSuccsBelow nb) by_id id none below (λ x h. absurd cc) s
        (sym (ap (elem s) (edges.succs id)) ∙ m)

  pub preds-inside : length by_id ≡ nb → (id p : ℕ) → elem p (preds_at cfg id) ≡ true → p < nb
  preds-inside len id p m = omega (arith, inside_map by_id p id (sym (edges.preds p id) ∙ m))

  pub preds-eq_succs : (id p : ℕ) → elem p (preds_at cfg id) ≡ elem id (succs_at cfg p)
  preds-eq_succs id p = edges.preds p id ∙ sym (ap (elem id) (edges.succs p))
